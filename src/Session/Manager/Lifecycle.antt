-- ===== src/Session/Manager/Lifecycle.antt =====
-- `Create`, `Get` and `Delete` on any number of shards act as on one map.
use hioload_ws.Prelude.{
  ◌++◌, ◌∙◌, ◌∷◌, ◌≡◌, ◌≢◌, Option, Option-cases, [], ap, arith, get_elem?, get_elem?-lt,
  get_elem?-set_self, inl, inr, length, length-set, none, refl, some, true, ℕ,
}
use hioload_ws.Session.Manager.{
  Session, SessionManager, Shard, cancel, cancel_at, create, create_at, create_in, delete,
  delete_at, delete_in, get, get_at, new_session, shard_index,
}
use hioload_ws.Session.Manager.Shards.{IsSharded, get-put_shard, get-put_shard_others, shard_at}
use hioload_ws.Session.Map.{
  Key, find, find-remove, find-remove_ne, find-store_at, find-store_at_ne, remove, store_at,
}

module _ (hash : Key → ℕ) where
  create-found :
      (m : SessionManager) (id : Key) (s : ℕ)
      → get hash m id ≡ some (some s)
      → create hash m id ≡ some (m, s)
  unfolding create get
  create-found m id s e = go (get_elem? m.shards (shard_index hash m id)) e
    where
      go : (o : Option Shard) → get_at id o ≡ some (some s) → create_at hash m id o ≡ some (m, s)
      go none e = grind (arith, e)
      go (some sh) e = ap (λ (o : Option (Option ℕ)). chosen o) e
        where
          chosen : Option (Option ℕ) → Option (SessionManager × ℕ)
          chosen none = none
          chosen (some o) = some (create_in hash m id sh o)

  create-new :
      (m : SessionManager) (id : Key) (sh : Shard)
      → get_elem? m.shards (shard_index hash m id) ≡ some sh
      → find sh id ≡ none
      → create hash m id ≡ some (create_in hash m id sh none)
  unfolding create
  create-new m id sh e missing =
      ap (create_at hash m id) e ∙ ap (λ o. some (create_in hash m id sh o)) missing

  get-found :
      (m : SessionManager) (id : Key) (sh : Shard)
      → get_elem? m.shards (shard_index hash m id) ≡ some sh
      → get hash m id ≡ some (find sh id)
  unfolding get
  get-found m id sh e = ap (get_at id) e

  -- The manager with a new session under `id`.
  with_new : SessionManager → Key → Shard → SessionManager
  with_new m id sh = (create_in hash m id sh none).0

  get-with_new :
      (m : SessionManager) (id : Key) (sh : Shard)
      → IsSharded m
      → get hash (with_new m id sh) id ≡ some (some (length m.heap))
  unfolding with_new
  get-with_new m id sh h =
      get-put_shard hash m (m.heap ++ (new_session id ∷ [])) id (store_at sh id (length m.heap)) h
      ∙ ap some (find-store_at sh id (length m.heap))

  -- `Create` gives a session that `Get` then finds, and a second `Create` gives the same one and
  -- changes nothing. There is no id for which either fails.
  pub create-get :
      (m : SessionManager) (id : Key)
      → IsSharded m
      → (m' : SessionManager) × (s : ℕ) × (create hash m id ≡ some (m', s))
        × (get hash m' id ≡ some (some s))
        × IsSharded m'
        × (create hash m' id ≡ some (m', s))
  unfolding with_new
  create-get m id h =
      let (sh, e) = shard_at hash m id h in
      elim (Option-cases (find sh id)) [
        | inl missing ↦
            let found = get-with_new m id sh h in
            (
              with_new m id sh,
              length m.heap,
              create-new m id sh e missing,
              found,
              omega (
                arith,
                h,
                length-set m.shards (shard_index hash m id) (store_at sh id (length m.heap)),
              ),
              create-found (with_new m id sh) id (length m.heap) found,
            )
        | inr (s, there) ↦
            let found = get-found m id sh e ∙ ap some there in
            (m, s, create-found m id s found, found, h, create-found m id s found)
      ]

  -- `Create` of one id leaves what `Get` finds for the others.
  pub create_others :
      (m : SessionManager) (id other : Key)
      → IsSharded m
      → id ≢ other
      → (m' : SessionManager) × (s : ℕ) × (create hash m id ≡ some (m', s))
        × (get hash m' other ≡ get hash m other)
  create_others m id other h ne =
      let (sh, e) = shard_at hash m id h in
      elim (Option-cases (find sh id)) [
        | inl missing ↦ (
          (create_in hash m id sh none).0,
          length m.heap,
          create-new m id sh e missing,
          get-put_shard_others hash m (m.heap ++ (new_session id ∷ [])) id other sh
              (store_at sh id (length m.heap)) h e
              (find-store_at_ne sh id other (length m.heap) ne),
        )
        | inr (s, there) ↦ (m, s, create-found m id s (get-found m id sh e ∙ ap some there), refl)
      ]

  delete_lem :
      (m : SessionManager) (id : Key) (sh : Shard) (o : Option ℕ)
      → get_elem? m.shards (shard_index hash m id) ≡ some sh
      → find sh id ≡ o
      → delete hash m id ≡ some (delete_in hash m id sh o)
  unfolding delete
  delete_lem m id sh o e there =
      ap (delete_at hash m id) e ∙ ap (λ o. some (delete_in hash m id sh o)) there

  -- `Delete` of an id that has a session: `Get` no longer finds it, and the session is cancelled, which
  -- all who hold it see.
  pub delete-get :
      (m : SessionManager) (id : Key) (s : ℕ) (x : Session)
      → IsSharded m
      → get hash m id ≡ some (some s)
      → get_elem? m.heap s ≡ some x
      → (m' : SessionManager) × (delete hash m id ≡ some m')
        × (get hash m' id ≡ some none)
        × IsSharded m'
        × (get_elem? m'.heap s ≡ some (record x { cancelled = true }))
  delete-get m id s x h found on_heap =
      let (sh, e) = shard_at hash m id h in
      let there : find sh id ≡ some s = grind (arith, get-found m id sh e, found) in
      (
        delete_in hash m id sh (some s),
        delete_lem m id sh (some s) e there,
        get-put_shard hash m _ id (remove sh id) h ∙ ap some (find-remove sh id),
        omega (arith, h, length-set m.shards (shard_index hash m id) (remove sh id)),
        ap (λ o. get_elem? (cancel_at m.heap s o) s) on_heap
            ∙ get_elem?-set_self m.heap s (cancel x) (get_elem?-lt m.heap s x on_heap),
      )

  -- `Delete` of one id leaves what `Get` finds for the others.
  pub delete_others :
      (m : SessionManager) (id other : Key)
      → IsSharded m
      → id ≢ other
      → (m' : SessionManager) × (delete hash m id ≡ some m')
        × (get hash m' other ≡ get hash m other)
  delete_others m id other h ne =
      let (sh, e) = shard_at hash m id h in
      elim (Option-cases (find sh id)) [
        | inl missing ↦ (m, delete_lem m id sh none e missing, refl)
        | inr (s, there) ↦ (
          delete_in hash m id sh (some s),
          delete_lem m id sh (some s) e there,
          get-put_shard_others hash m _ id other sh (remove sh id) h e
              (find-remove_ne sh id other ne),
        )
      ]
