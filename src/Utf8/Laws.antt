-- ===== src/Utf8/Laws.antt =====
-- Decoding leaves UTF-8 as it is.
use mathlib.Core.List.{append_assoc}
use chroma_db_net.Prelude.{ℕ, zero, suc, ◌≡◌, refl, true, [], ◌∷◌, ◌++◌, arith, Text}
use chroma_db_net.Utf8.{
  State, ready, inside, Start, start, single, lead, invalid, decode, lossy, valid, IsUtf8,
}

-- What is still to be written of the character that is being read.
pending : State → Text
pending ready = []
pending (inside got lo hi more) = got

-- A first byte, given the law for the bytes behind it.
decode-valid_ready :
    (b : ℕ) (bs : Text) (k : Start)
    → start b ≡ k
    → ((s : State) → valid s bs ≡ true → decode s bs ≡ pending s ++ bs)
    → valid ready (b ∷ bs) ≡ true
    → decode ready (b ∷ bs) ≡ b ∷ bs
unfolding decode valid pending
decode-valid_ready b bs single e ih v = ground (arith, ih ready)
decode-valid_ready b bs (lead lo hi more) e ih v = ground (arith, ih (inside (b ∷ []) lo hi more))
decode-valid_ready b bs invalid e ih v = ground arith

decode-valid : (s : State) (t : Text) → valid s t ≡ true → decode s t ≡ pending s ++ t
unfolding decode valid pending
decode-valid ready [] v = refl
decode-valid (inside got lo hi more) [] v = ground arith
decode-valid ready (b ∷ bs) v = decode-valid_ready b bs (start b) refl (λ s. decode-valid s bs) v
decode-valid (inside got lo hi zero) (b ∷ bs) v =
    ground (arith, decode-valid ready bs, append_assoc got (b ∷ []) bs)
decode-valid (inside got lo hi (suc more)) (b ∷ bs) v =
    ground
      (arith, decode-valid (inside (got ++ b ∷ []) 0x80 0xBF more) bs, append_assoc got (b ∷ []) bs)

-- Text that is UTF-8 is decoded as it is.
pub lossy-IsUtf8 : (t : Text) → IsUtf8 t → lossy t ≡ t
unfolding lossy pending
lossy-IsUtf8 t v = decode-valid ready t v
