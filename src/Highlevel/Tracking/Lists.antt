-- ===== src/Highlevel/Tracking/Lists.antt =====
-- Lists of `Conn`s as sets.
use hioload_ws.Prelude.{◌&&◌, ◌++◌, ◌==◌, ◌||◌, ◌∷◌, ◌≡◌, List, [], arith, not, refl, ℕ}
use hioload_ws.Highlevel.Tracking.{add_connection, is_tracked, remove_connection}

pub is_tracked-append :
    (c : ℕ) (cs ds : List ℕ) → is_tracked c (cs ++ ds) ≡ (is_tracked c cs || is_tracked c ds)
is_tracked-append c [] ds = refl
is_tracked-append c (d ∷ cs) ds = ground (arith, is_tracked-append c cs ds)

-- What is in the list afterwards.
pub is_tracked-remove_connection :
    (c d : ℕ) (cs : List ℕ)
    → is_tracked d (remove_connection cs c) ≡ (not (d == c) && is_tracked d cs)
is_tracked-remove_connection c d [] = ground arith
is_tracked-remove_connection c d (e ∷ cs) = ground (arith, is_tracked-remove_connection c d cs)

pub is_tracked-add_connection :
    (c d : ℕ) (cs : List ℕ) → is_tracked d (add_connection cs c) ≡ ((d == c) || is_tracked d cs)
is_tracked-add_connection c d cs = ground (arith, is_tracked-append d cs (c ∷ []))
