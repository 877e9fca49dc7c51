-- ===== src/Poller/Bridges.antt =====
-- Lists of bridges without repetition.
use Prim.Native.Nat.{zero}
use mathlib.Core.Option.{some-injective}
use hioload_ws.Prelude.{
  ◌++◌, ◌+◌, ◌<◌, ◌==◌, ◌∙◌, ◌∷◌, ◌≡◌, All, All-append, List, [], ap, ap₂, arith, false, get_elem?,
  length, refl, some, subst, suc, true, ℕ,
}
use hioload_ws.EventLoop.{without_handler}
use hioload_ws.Poller.{Handler, inner_of, reached, remove_at}

abbrev pub IsFresh : ℕ → List ℕ → Type 0
IsFresh b = All (λ c. c < b)

abbrev pub Others : ℕ → List ℕ → Type 0
Others b = All (λ c. (c == b) ≡ false)

abbrev pub Distinct : List ℕ → Type 0
Distinct [] = Unit {0}
Distinct (b ∷ bs) = Others b bs × Distinct bs

pub IsFresh-Others : (b : ℕ) (bs : List ℕ) → IsFresh b bs → Others b bs
IsFresh-Others b [] h = tt
IsFresh-Others b (c ∷ cs) h = (ground (arith, h.0), IsFresh-Others b cs h.1)

pub IsFresh-suc : (b : ℕ) (bs : List ℕ) → IsFresh b bs → IsFresh (b + 1) bs
IsFresh-suc b [] h = tt
IsFresh-suc b (c ∷ cs) h = (omega (arith, h.0), IsFresh-suc b cs h.1)

pub Distinct-snoc : (b : ℕ) (bs : List ℕ) → IsFresh b bs → Distinct bs → Distinct (bs ++ (b ∷ []))
Distinct-snoc b [] f d = (tt, tt)
Distinct-snoc b (c ∷ cs) f d = (
  All-append (λ e. (e == c) ≡ false) cs (b ∷ []) d.0 (ground (arith, f.0), tt),
  Distinct-snoc b cs f.1 d.1,
)

pub All-remove_at {κ} : (P : ℕ → Type κ) (i : ℕ) (bs : List ℕ) → All P bs → All P (remove_at i bs)
All-remove_at P i [] h = tt
All-remove_at P zero (b ∷ bs) h = h.1
All-remove_at P (suc i) (b ∷ bs) h = (h.0, All-remove_at P i bs h.1)

pub Distinct-remove_at : (i : ℕ) (bs : List ℕ) → Distinct bs → Distinct (remove_at i bs)
Distinct-remove_at i [] h = tt
Distinct-remove_at zero (b ∷ bs) h = h.1
Distinct-remove_at (suc i) (b ∷ bs) h = (All-remove_at _ i bs h.0, Distinct-remove_at i bs h.1)

without-Others : (b : ℕ) (bs : List ℕ) → Others b bs → without_handler b bs ≡ bs
without-Others b [] h = refl
without-Others b (c ∷ cs) h = rw h.0 (ap (λ z. c ∷ z) (without-Others b cs h.1))

Others-get : (b c i : ℕ) (bs : List ℕ) → Others b bs → get_elem? bs i ≡ some c → (b == c) ≡ false
Others-get b c i [] h e = grind (arith, e)
Others-get b c zero (d ∷ bs) h e = ground (arith, h.0, some-injective d c e)
Others-get b c (suc i) (d ∷ bs) h e = Others-get b c i bs h.1 e

-- Without repetition, to remove a bridge is to cut its place out.
pub without_handler-remove_at :
    (i b : ℕ) (bs : List ℕ)
    → Distinct bs
    → get_elem? bs i ≡ some b
    → without_handler b bs ≡ remove_at i bs
without_handler-remove_at i b [] d e = grind (arith, e)
without_handler-remove_at zero b (c ∷ bs) d e =
    let same : (c == b) ≡ true = ground (arith, some-injective c b e) in
    rw same (without-Others b bs (subst (λ z. Others z bs) (some-injective c b e) d.0))
without_handler-remove_at (suc i) b (c ∷ bs) d e =
    rw (Others-get c b i bs d.0 e) (ap (λ z. c ∷ z) (without_handler-remove_at i b bs d.1 e))

-- The handlers within the bridges, looked up one by one.
inner_of-other :
    (b c : ℕ) (cs : List ℕ) (k : Handler) (hs : List Handler)
    → (c == b) ≡ false
    → inner_of (c ∷ cs) (k ∷ hs) b ≡ inner_of cs hs b
inner_of-other b c cs k hs e = rw e refl

reached-other :
    (bs : List ℕ) (c : ℕ) (cs : List ℕ) (k : Handler) (hs : List Handler)
    → Others c bs
    → reached bs (c ∷ cs) (k ∷ hs) ≡ reached bs cs hs
reached-other [] c cs k hs o = refl
reached-other (b ∷ bs) c cs k hs o =
    ap₂ ◌++◌ (inner_of-other b c cs k hs (ground (arith, o.0))) (reached-other bs c cs k hs o.1)

pub reached-all :
    (bs : List ℕ) (hs : List Handler) → Distinct bs → length bs ≡ length hs → reached bs bs hs ≡ hs
reached-all [] [] d e = refl
reached-all [] (h ∷ hs) d e = absurd (omega (arith, e))
reached-all (b ∷ bs) [] d e = absurd (omega (arith, e))
reached-all (b ∷ bs) (h ∷ hs) d e =
    let self : (b == b) ≡ true = ground arith in
    let one : inner_of (b ∷ bs) (h ∷ hs) b ≡ h ∷ [] = rw self refl in
    ap₂ ◌++◌ one (reached-other bs b bs h hs d.0 ∙ reached-all bs hs d.1 (omega (arith, e)))
