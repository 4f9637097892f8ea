-- ===== src/Frame/Send.antt =====
-- SendData and WriteMessage, as what they append to the write buffer.
use mathlib.Core.Path.{subst}
use dash_dim.Prelude.{
  ℕ, suc, ◌+◌, ◌%◌, ◌^◌, ◌≤◌, ◌<◌, ◌≡◌, refl, sym, ap, ◌∙◌, true, none, some, List, [], ◌∷◌, ◌++◌,
  leb, if◌then◌else◌, length, arith, size_mod, length-append, take_all,
}
use dash_dim.Codec.Endian.{host_bytes}
use dash_dim.Codec.Writer.{
  Writer, Write, ◌then_write◌, payload, write_var_int62, write_bytes, write_uint8,
  get_var_int62_len,
}
use dash_dim.Codec.Append.{Appended, writer-IsValid}
use dash_dim.Codec.Chain.{
  Writes, write_bytes-Writes, write_var_int62-Writes, then_write-Writes, fresh,
}
use dash_dim.Codec.VarInt62.{encoding62, get_var_int62_len-encoding62, length-encoding62}
use dash_dim.Frame.{
  send_data_writer, send_data, write_message, write_message_writer, packet_length_max, buffer_size,
}

-- The bytes of a frame.
abbrev pub frame : ℕ → List ℕ → List ℕ
frame offset pv = encoding62 offset ++ (encoding62 (length pv) ++ pv)

pub length-frame :
    (o : ℕ) (pv : List ℕ)
    → length (frame o pv) ≡ length (encoding62 o) + length (encoding62 (length pv)) + length pv
length-frame o pv = omega (
  arith,
  length-append (encoding62 o) (encoding62 (length pv) ++ pv),
  length-append (encoding62 (length pv)) pv,
)

-- A run of writes that fills the fresh buffer leaves the bytes as its contents.
filled :
    (n : ℕ) (f : Write) (bytes : List ℕ)
    → n < size_mod
    → length bytes ≡ n
    → Writes f bytes (fresh n)
    → (w : Writer) × (f (fresh n) ≡ (w, true)) × (w.buffer ≡ bytes)
unfolding fresh
filled n f bytes h size (w, e, a) = (
  w,
  e,
  sym (take_all w.length w.buffer (omega (arith, a.valid.owned, a.length_eq, a.capacity_eq, size)))
      ∙ a.payload_eq,
)

send_data_writer-frame :
    (o : ℕ) (pv : List ℕ)
    → o < 2 ^ 62
    → length pv ≤ packet_length_max
    → (w : Writer) × (send_data_writer o pv ≡ (w, true)) × (w.buffer ≡ frame o pv)
unfolding send_data_writer fresh
send_data_writer-frame o pv h small =
    filled n (write_var_int62 o then_write (write_var_int62 (length pv) then_write write_bytes pv))
      (frame o pv) bound (omega (arith, length-frame o pv, lo, ll))
      (then_write-Writes (write_var_int62 o) (write_var_int62 (length pv) then_write write_bytes pv)
        (encoding62 o) (encoding62 (length pv) ++ pv) (fresh n)
        (write_var_int62-Writes o (fresh n) h (writer-IsValid n bound) (omega (arith, lo)))
        (λ w a.
          then_write-Writes (write_var_int62 (length pv)) (write_bytes pv) (encoding62 (length pv))
            pv w
            (write_var_int62-Writes (length pv) w (omega arith) a.valid
              (omega (arith, a.length_eq, a.capacity_eq, lo, ll)))
            (λ w' b.
              write_bytes-Writes pv w' b.valid
                (omega (arith, a.length_eq, a.capacity_eq, b.length_eq, b.capacity_eq, lo, ll)))))
  where
    n : ℕ
    n = get_var_int62_len o + get_var_int62_len (length pv) + length pv

    lo : get_var_int62_len o ≡ length (encoding62 o)
    lo = get_var_int62_len-encoding62 o h

    ll : get_var_int62_len (length pv) ≡ length (encoding62 (length pv))
    ll = get_var_int62_len-encoding62 (length pv) (omega arith)

    bound : n < size_mod
    bound = omega (arith, lo, ll, length-encoding62 o, length-encoding62 (length pv))

-- SendData on an open descriptor, of at most 65535 bytes at an offset below 2^62, appends one
-- frame to the write buffer: the encoded offset, the encoded length and the bytes.
pub send_data-frame :
    (o : ℕ) (pv wb : List ℕ)
    → o < 2 ^ 62
    → length pv ≤ packet_length_max
    → send_data true o pv wb ≡ some (wb ++ frame o pv)
unfolding send_data
send_data-frame o pv wb h small =
    let (w, e, full) = send_data_writer-frame o pv h small in
    let passed : leb (length pv) packet_length_max ≡ true = ground arith in
    rw (passed, e, full) refl

write_message_writer-frame :
    (type : ℕ) (body : List ℕ)
    → type < 256
    → length body ≤ 1480
    → (w : Writer) × (write_message_writer type body ≡ (w, true))
      × (payload w ≡ frame 0 (type ∷ body))
unfolding write_message_writer fresh
write_message_writer-frame type body h small = (w, e, a.payload_eq)
  where
    n : ℕ
    n = 1 + length body

    ln : length (encoding62 n) ≤ 8
    ln = (length-encoding62 n).1

    same : suc (length body) ≡ n
    same = omega arith

    byte : (w : Writer) → write_uint8 type w ≡ write_bytes (type ∷ []) w
    byte w =
        let low : type % 256 ≡ type = omega arith in unfold write_uint8 host_bytes in rw low refl

    one_byte :
        (w : Writer)
        → Writes (write_bytes (type ∷ [])) (type ∷ []) w
        → Writes (write_uint8 type) (type ∷ []) w
    one_byte w (w', e, a) = (w', byte w ∙ e, a)

    start : Writer
    start = fresh buffer_size

    chain :
        Writes
          (write_var_int62 0
            then_write (write_var_int62 n
                then_write (write_uint8 type then_write write_bytes body)))
          (encoding62 0 ++ (encoding62 n ++ (type ∷ body)))
          start
    chain =
        then_write-Writes (write_var_int62 0)
          (write_var_int62 n then_write (write_uint8 type then_write write_bytes body))
          (encoding62 0) (encoding62 n ++ (type ∷ body)) start
          (write_var_int62-Writes 0 start (omega arith) (writer-IsValid buffer_size (omega arith))
            (omega (arith, length-encoding62 0)))
          (λ w a.
            then_write-Writes (write_var_int62 n) (write_uint8 type then_write write_bytes body)
              (encoding62 n) (type ∷ body) w
              (write_var_int62-Writes n w (omega arith) a.valid
                (omega (arith, length-encoding62 0, ln, a.length_eq, a.capacity_eq)))
              (λ w' b.
                then_write-Writes (write_uint8 type) (write_bytes body) (type ∷ []) body w'
                  (one_byte w' (
                    write_bytes-Writes (type ∷ []) w' b.valid (
                      omega (
                        arith,
                        length-encoding62 0,
                        ln,
                        a.length_eq,
                        a.capacity_eq,
                        b.length_eq,
                        b.capacity_eq,
                      ))))
                  (λ w'' c. write_bytes-Writes body w'' c.valid (
                    omega (
                      arith,
                      length-encoding62 0,
                      ln,
                      a.length_eq,
                      a.capacity_eq,
                      b.length_eq,
                      b.capacity_eq,
                      c.length_eq,
                      c.capacity_eq,
                    )))))

    w : Writer
    w = chain.0

    e : write_message_writer type body ≡ (w, true)
    e = chain.1

    a : Appended (frame 0 (type ∷ body)) start w
    a =
        subst (λ k. Appended (encoding62 0 ++ (encoding62 k ++ (type ∷ body))) start w) (sym same)
          chain.2

-- WriteMessage of a one-byte type and a body of at most 1480 bytes appends the frame of offset
-- 0 that holds the type and the body.
pub write_message-frame :
    (type : ℕ) (body wb : List ℕ)
    → type < 256
    → length body ≤ 1480
    → write_message type body wb ≡ some (wb ++ frame 0 (type ∷ body))
unfolding write_message
write_message-frame type body wb h small =
    let (w, e, p) = write_message_writer-frame type body h small in
    ap (λ q. if q.1 then some (wb ++ payload q.0) else none) e ∙ ap (λ l. some (wb ++ l)) p
