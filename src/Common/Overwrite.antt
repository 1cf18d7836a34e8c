-- ===== src/Common/Overwrite.antt =====
-- Writing a run of bytes into a C buffer (`memcpy`, or bytes assigned one after the other), and
-- reading a run back.
use Prim.Native.Nat.{ℕ, zero, suc, ◌+◌, ◌<◌, ◌≤◌}
use mathlib.Core.Path.{◌≡◌, refl, ap, ◌∙◌}
use mathlib.Core.List.{List, [], ◌∷◌, ◌++◌}
use native.Mathlib.Omega.{arith}
use muc_opcua.Common.Lists.{length, get_or, set, length-set, get_or-set_self, get_or-set_ne}

-- The buffer after the bytes were written from index `p` on.
unfoldable pub overwrite : List ℕ → ℕ → List ℕ → List ℕ
overwrite buf p [] = buf
overwrite buf p (b ∷ bs) = overwrite (set buf p b) (suc p) bs

-- The buffer holds the bytes from index `p` on.
abbrev pub Holds : List ℕ → ℕ → List ℕ → Type 0
Holds buf p [] = Unit {0}
Holds buf p (b ∷ bs) = (get_or buf p 0 ≡ b) × Holds buf (suc p) bs

-- The `n` bytes from index `p` on.
unfoldable pub slice : List ℕ → ℕ → ℕ → List ℕ
slice buf p zero = []
slice buf p (suc n) = get_or buf p 0 ∷ slice buf (suc p) n

pub length-overwrite :
    (buf : List ℕ) (p : ℕ) (bs : List ℕ) → length (overwrite buf p bs) ≡ length buf
unfolding overwrite
length-overwrite buf p [] = refl
length-overwrite buf p (b ∷ bs) = length-overwrite (set buf p b) (suc p) bs ∙ length-set buf p b

pub overwrite-append :
    (buf : List ℕ) (p q : ℕ) (bs cs : List ℕ)
    → q ≡ p + length bs
    → overwrite (overwrite buf p bs) q cs ≡ overwrite buf p (bs ++ cs)
unfolding overwrite
overwrite-append buf p q [] cs e = ap (λ k. overwrite buf k cs) (omega arith)
overwrite-append buf p q (b ∷ bs) cs e =
    overwrite-append (set buf p b) (suc p) q bs cs (omega arith)

-- Bytes before the run stay.
pub get_or-overwrite_before :
    (buf : List ℕ) (p i : ℕ) (bs : List ℕ)
    → i < p
    → get_or (overwrite buf p bs) i 0 ≡ get_or buf i 0
unfolding overwrite
get_or-overwrite_before buf p i [] h = refl
get_or-overwrite_before buf p i (b ∷ bs) h =
    get_or-overwrite_before (set buf p b) (suc p) i bs (omega arith)
    ∙ get_or-set_ne buf p i b 0 (omega arith)

-- Bytes behind the run stay.
pub get_or-overwrite_after :
    (buf : List ℕ) (p i : ℕ) (bs : List ℕ)
    → p + length bs ≤ i
    → get_or (overwrite buf p bs) i 0 ≡ get_or buf i 0
unfolding overwrite
get_or-overwrite_after buf p i [] h = refl
get_or-overwrite_after buf p i (b ∷ bs) h =
    get_or-overwrite_after (set buf p b) (suc p) i bs (omega arith)
    ∙ get_or-set_ne buf p i b 0 (omega arith)

pub Holds-overwrite :
    (buf : List ℕ) (p : ℕ) (bs : List ℕ)
    → p + length bs ≤ length buf
    → Holds (overwrite buf p bs) p bs
unfolding overwrite
Holds-overwrite buf p [] h = tt
Holds-overwrite buf p (b ∷ bs) h = (
  get_or-overwrite_before (set buf p b) (suc p) p bs (omega arith)
      ∙ get_or-set_self buf p b 0 (omega arith),
  Holds-overwrite (set buf p b) (suc p) bs (omega (arith, length-set buf p b)),
)

pub Holds-append_left :
    (buf : List ℕ) (p : ℕ) (bs cs : List ℕ) → Holds buf p (bs ++ cs) → Holds buf p bs
Holds-append_left buf p [] cs h = tt
Holds-append_left buf p (b ∷ bs) cs h = (h.0, Holds-append_left buf (suc p) bs cs h.1)

pub Holds-append_right :
    (buf : List ℕ) (p q : ℕ) (bs cs : List ℕ)
    → q ≡ p + length bs
    → Holds buf p (bs ++ cs)
    → Holds buf q cs
Holds-append_right buf p q [] cs e h = let e' : q ≡ p = omega arith in rw e' h
Holds-append_right buf p q (b ∷ bs) cs e h =
    Holds-append_right buf (suc p) q bs cs (omega arith) h.1

pub slice-eq_of_Holds :
    (buf : List ℕ) (p : ℕ) (bs : List ℕ) → Holds buf p bs → slice buf p (length bs) ≡ bs
unfolding slice
slice-eq_of_Holds buf p [] h = refl
slice-eq_of_Holds buf p (b ∷ bs) h = rw (h.0, slice-eq_of_Holds buf (suc p) bs h.1)

pub slice-overwrite_after :
    (buf : List ℕ) (p q n : ℕ) (bs : List ℕ)
    → p + length bs ≤ q
    → slice (overwrite buf p bs) q n ≡ slice buf q n
unfolding slice
slice-overwrite_after buf p q zero bs h = refl
slice-overwrite_after buf p q (suc n) bs h =
    rw (get_or-overwrite_after buf p q bs h, slice-overwrite_after buf p (suc q) n bs (omega arith))
