-- ===== src/Romgen/Chunk/Blob.antt =====
-- A chunk written in one go, and a chunk opened, filled and closed.
use sdcc.Common.{
  ℕ, ◌+◌, ◌-◌, ◌%◌, ◌^◌, ◌<◌, ◌≡◌, List, [], ◌∷◌, ◌++◌, arith, length, length-append,
  length-append-replicate, ap, ◌∙◌, append_assoc,
}
use sdcc.Romgen.Buffer.{Buf, buf_put, le32}
use sdcc.Romgen.Buffer.Words.{buf_put-bytes, buf_u32-bytes}
use sdcc.Romgen.Chunk.{ck_open, ck_close, ck_blob}
use sdcc.Romgen.Chunk.Frame.{frame, padding, IsAligned, opened, ck_close-frame}

pub ck_open-bytes :
    (b : Buf) (id : List ℕ) → (ck_open b id).0.bytes ≡ (b.bytes ++ id) ++ (0 ∷ 0 ∷ 0 ∷ 0 ∷ [])
unfolding ck_open
ck_open-bytes b id = buf_u32-bytes (buf_put b id) 0 ∙ rw (buf_put-bytes b id)

pub ck_open-szpos : (b : Buf) (id : List ℕ) → (ck_open b id).1 ≡ length (b.bytes ++ id)
unfolding ck_open
ck_open-szpos b id =
    omega
      (arith, ap length (ck_open-bytes b id), length-append (b.bytes ++ id) (0 ∷ 0 ∷ 0 ∷ 0 ∷ []))

-- Filling: `b'` is the opened buffer with `payload` put behind it.
pub ck_open_close-frame :
    (b b' : Buf) (id payload : List ℕ)
    → b'.bytes ≡ (ck_open b id).0.bytes ++ payload
    → length id ≡ 4
    → IsAligned b.bytes
    → length b'.bytes < 2 ^ 32
    → (ck_close b' (ck_open b id).1).bytes ≡ b.bytes ++ frame id payload
ck_open_close-frame b b' id payload e four aligned fits =
    rw (ck_open-szpos b id)
      (ck_close-frame b.bytes id payload b' filled four aligned (rw filled at fits))
  where
    filled : b'.bytes ≡ opened b.bytes id payload
    filled = e ∙ rw (ck_open-bytes b id) (append_assoc (b.bytes ++ id) (0 ∷ 0 ∷ 0 ∷ 0 ∷ []) payload)

-- With an id of four bytes, on an aligned buffer and below 4 GB, a blob appends one framed chunk
-- (id, size, payload and padding) and leaves what stood before it.
pub ck_blob-frame :
    (b : Buf) (id payload : List ℕ)
    → length id ≡ 4
    → IsAligned b.bytes
    → length b.bytes + 8 + length payload < 2 ^ 32
    → (ck_blob b id payload).bytes ≡ b.bytes ++ frame id payload
unfolding ck_blob
ck_blob-frame b id payload four aligned fits =
    ck_open_close-frame b (buf_put (ck_open b id).0 payload) id payload (buf_put-bytes _ payload)
      four aligned
      (omega (
        arith,
        ap length (
            buf_put-bytes (ck_open b id).0 payload ∙ ap (λ xs. xs ++ payload) (ck_open-bytes b id)),
        length-append ((b.bytes ++ id) ++ (0 ∷ 0 ∷ 0 ∷ 0 ∷ [])) payload,
        length-append (b.bytes ++ id) (0 ∷ 0 ∷ 0 ∷ 0 ∷ []),
        length-append b.bytes id,
      ))

pub length-frame :
    (id payload : List ℕ)
    → length (frame id payload) ≡ length id + (4 + (length payload + (4 - length payload % 4) % 4))
length-frame id payload =
    length-append id (le32 (length payload) ++ (payload ++ padding (length payload)))
    ∙ omega (arith, length-append-replicate payload ((4 - length payload % 4) % 4) 0)

-- The next chunk begins at a multiple of four again.
pub frame-IsAligned :
    (pre id payload : List ℕ) → length id ≡ 4 → IsAligned pre → IsAligned (pre ++ frame id payload)
frame-IsAligned pre id payload four aligned =
    omega (arith, length-append pre (frame id payload), length-frame id payload)
