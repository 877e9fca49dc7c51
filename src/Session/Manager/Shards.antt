-- ===== src/Session/Manager/Shards.antt =====
-- The shards of a manager as one map from ids to sessions.
use hioload_ws.Prelude.{
  ◌<◌, ◌∙◌, ◌≡◌, List, ap, arith, get_elem?, get_elem?-set_ne, get_elem?-set_self, get_elem?-some,
  length, set, some, sym, ℕ, ℕ_discrete,
}
use hioload_ws.Prelude.Mod.{bit_and-le}
use hioload_ws.Session.Manager.{Session, SessionManager, Shard, get, get_at, put_shard, shard_index}
use hioload_ws.Session.Map.{Key, find}

-- Every hash finds a shard.
abbrev pub IsSharded : SessionManager → Type 0
IsSharded m = m.mask < length m.shards

module _ (hash : Key → ℕ) where
  pub shard_at :
      (m : SessionManager) (id : Key)
      → IsSharded m
      → (sh : Shard) × (get_elem? m.shards (shard_index hash m id) ≡ some sh)
  shard_at m id h =
      get_elem?-some m.shards (shard_index hash m id)
        (omega (arith, h, bit_and-le (hash id) m.mask))

  -- `Get` behind a change of the shard of `id`.
  pub get-put_shard :
      (m : SessionManager) (heap : List Session) (id : Key) (sh : Shard)
      → IsSharded m
      → get hash (record (put_shard hash m id sh) { heap = heap }) id ≡ some (find sh id)
  unfolding get
  get-put_shard m heap id sh h = ap (get_at id) (
      get_elem?-set_self m.shards (shard_index hash m id) sh
        (omega (arith, h, bit_and-le (hash id) m.mask)))

  same_or_other :
      (m : SessionManager) (id other : Key) (sh sh' : Shard)
      → IsSharded m
      → get_elem? m.shards (shard_index hash m id) ≡ some sh
      → find sh' other ≡ find sh other
      → get_at other
          (get_elem? (set m.shards (shard_index hash m id) sh') (shard_index hash m other))
        ≡ get_at other (get_elem? m.shards (shard_index hash m other))
  same_or_other m id other sh sh' h e kept =
      elim (ℕ_discrete (shard_index hash m id) (shard_index hash m other)) [
        | yes same ↦
            ap (λ (i : ℕ). get_at other (get_elem? (set m.shards (shard_index hash m id) sh') i))
              (sym same)
            ∙ ap (get_at other) (
                get_elem?-set_self m.shards (shard_index hash m id) sh'
                  (omega (arith, h, bit_and-le (hash id) m.mask)))
            ∙ ap some kept
            ∙ sym (ap (get_at other) e)
            ∙ ap (λ (i : ℕ). get_at other (get_elem? m.shards i)) same
        | no differ ↦ ap (get_at other) (get_elem?-set_ne m.shards sh' differ)
      ]

  -- `Get` of another id behind a change of the shard of `id` that keeps what it has for that id.
  pub get-put_shard_others :
      (m : SessionManager) (heap : List Session) (id other : Key) (sh sh' : Shard)
      → IsSharded m
      → get_elem? m.shards (shard_index hash m id) ≡ some sh
      → find sh' other ≡ find sh other
      → get hash (record (put_shard hash m id sh') { heap = heap }) other ≡ get hash m other
  unfolding get
  get-put_shard_others m heap id other sh sh' h e kept = same_or_other m id other sh sh' h e kept
