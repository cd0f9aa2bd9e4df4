-- ===== src/Download/Downloader/Transfer/Messages.antt =====
-- src/download/downloader.cpp, the loop of try_download: the messages of a peer that answers every request.
use furrent.Prelude.{
  ℕ, ◌+◌, ◌<◌, ◌/◌, ◌≡◌, ◌⊎◌, inl, inr, List, [], ◌∷◌, ◌++◌, length, get_elem?, get_elem?_ext,
  returns, arith,
}
use furrent.Prelude.Int.{ℤ, pos}
use furrent.Download.Message.{
  Message, keep_alive, choke, unchoke, interested, not_interested, have, bitfield, request, piece,
  encode,
}
use furrent.Download.Message.RoundTrip.{IsSendable}
use furrent.Download.Downloader.Blocks.{blocks_total, block_offset}
use furrent.Download.Downloader.Blocks.Assembly.{block_of}

-- A message that serves a piece: a block of it, or one that tells nothing of pieces.
unfoldable pub IsServing : List ℕ → Message → Type 0
IsServing whole (piece index begin block) =
    (k : ℕ) × (k < blocks_total (length whole))
    × (begin ≡ pos (block_offset k))
    × (block ≡ block_of whole k)
IsServing whole (have index) = ⊥
IsServing whole _ = Unit {0}

-- The number of blocks among the messages.
unfoldable pub blocks_in : List Message → ℕ
blocks_in [] = 0
blocks_in (piece index begin block ∷ ms) = 1 + blocks_in ms
blocks_in (_ ∷ ms) = blocks_in ms

-- One of the messages is the block that the byte j lies in.
unfoldable pub IsBrought : ℕ → List Message → Type 0
IsBrought j [] = ⊥
IsBrought j (piece index begin block ∷ ms) =
    (begin ≡ pos (block_offset (j / 16384))) ⊎ IsBrought j ms
IsBrought j (_ ∷ ms) = IsBrought j ms

pub blocks_in-cons :
    (m : Message) (ms : List Message) → blocks_in (m ∷ ms) ≡ blocks_in (m ∷ []) + blocks_in ms
unfolding blocks_in
blocks_in-cons keep_alive ms = omega arith
blocks_in-cons choke ms = omega arith
blocks_in-cons unchoke ms = omega arith
blocks_in-cons interested ms = omega arith
blocks_in-cons not_interested ms = omega arith
blocks_in-cons (have i) ms = omega arith
blocks_in-cons (bitfield bf) ms = omega arith
blocks_in-cons (request i b l) ms = omega arith
blocks_in-cons (piece i b x) ms = omega arith

pub IsBrought-cons :
    (j : ℕ) (m : Message) (ms : List Message)
    → IsBrought j (m ∷ ms)
    → IsBrought j (m ∷ []) ⊎ IsBrought j ms
unfolding IsBrought
IsBrought-cons j keep_alive ms h = inr h
IsBrought-cons j choke ms h = inr h
IsBrought-cons j unchoke ms h = inr h
IsBrought-cons j interested ms h = inr h
IsBrought-cons j not_interested ms h = inr h
IsBrought-cons j (have i) ms h = inr h
IsBrought-cons j (bitfield bf) ms h = inr h
IsBrought-cons j (request i b l) ms h = inr h
IsBrought-cons j (piece i b x) ms (inl h) = inl (inl h)
IsBrought-cons j (piece i b x) ms (inr h) = inr h

pub IsBrought-blocks_in : (j : ℕ) (ms : List Message) → IsBrought j ms → 0 < blocks_in ms
unfolding IsBrought blocks_in
IsBrought-blocks_in j [] h = absurd h
IsBrought-blocks_in j (keep_alive ∷ ms) h = IsBrought-blocks_in j ms h
IsBrought-blocks_in j (choke ∷ ms) h = IsBrought-blocks_in j ms h
IsBrought-blocks_in j (unchoke ∷ ms) h = IsBrought-blocks_in j ms h
IsBrought-blocks_in j (interested ∷ ms) h = IsBrought-blocks_in j ms h
IsBrought-blocks_in j (not_interested ∷ ms) h = IsBrought-blocks_in j ms h
IsBrought-blocks_in j (have i ∷ ms) h = IsBrought-blocks_in j ms h
IsBrought-blocks_in j (bitfield bf ∷ ms) h = IsBrought-blocks_in j ms h
IsBrought-blocks_in j (request i b l ∷ ms) h = IsBrought-blocks_in j ms h
IsBrought-blocks_in j (piece i b x ∷ ms) h = omega arith

-- Where no block is left to come, every byte is there.
pub all_there :
    (whole content : List ℕ) (ms : List Message)
    → blocks_in ms ≡ 0
    → length content ≡ length whole
    → ((j : ℕ) → j < length whole → IsBrought j ms ⊎ (get_elem? content j ≡ get_elem? whole j))
    → content ≡ whole
all_there whole content ms n l g = get_elem?_ext content whole l (λ j h.
    elim (g j (omega (arith, h, l))) [
      | inl b ↦ absurd (omega (arith, IsBrought-blocks_in j ms b, n))
      | inr e ↦ e
    ])

-- The bytes begin with the encoded messages, all of which fit the wire format.
unfoldable pub Spells : ℤ → List Message → List ℕ → Type 0
Spells count [] bytes = Unit {0}
Spells count (m ∷ ms) bytes =
    (out rest : List ℕ) × IsSendable count m
    × (encode m ≡ returns out)
    × (bytes ≡ out ++ rest)
    × Spells count ms rest
