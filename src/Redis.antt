-- ===== src/Redis.antt =====
-- Redis, the server that apps/sample-fastapi/queue_service.py talks to. It is not part of the
-- repository: the commands that the service sends are an interface, and their laws say what the
-- Redis documentation says of what a client can observe afterwards.
pub mod Memory
use practical_project.Base.{
  ℕ, ◌+◌, ◌≡◌, ◌≢◌, Bool, true, false, ◌&&◌, ◌||◌, List, [], ◌∷◌, ◌++◌, Option, none, some, leb,
  if◌then◌else◌,
}
use practical_project.Base.Classes.{Eq, ◌==◌, contains, index_of, erase_first}

-- What a client can read: LRANGE of a list, ZSCORE of a sorted set, EXISTS of a plain key.
pub record View (K V : Type 0) : Type 0 where
  pub items : K → List V
  pub score : K → V → Option ℕ
  pub flag : K → Bool

abbrev pub is_some {ℓ} : {A : Type ℓ} → Option A → Bool
is_some none = false
is_some (some _) = true

abbrev pub is_due : ℕ → Option ℕ → Bool
is_due max none = false
is_due max (some s) = leb s max

module _ {K V : Type 0} ⦃k_eq : Eq K⦄ ⦃v_eq : Eq V⦄ where
  abbrev pub put_items : K → List V → View K V → View K V
  put_items k vs w = record w { items = λ j. if k == j then vs else w.items j }

  abbrev pub put_score : K → V → Option ℕ → View K V → View K V
  put_score k v s w = record w { score = λ j u. if k == j && v == u then s else w.score j u }

  abbrev pub put_flag : K → View K V → View K V
  put_flag k w = record w { flag = λ j. if k == j then true else w.flag j }

  -- LMOVE src dst LEFT RIGHT.
  abbrev pub move_head : K → K → List V → View K V → Option V × View K V
  move_head src dst [] w = (none, w)
  move_head src dst (v ∷ vs) w =
      let w' = put_items src vs w in (some v, put_items dst (w'.items dst ++ v ∷ []) w')

  abbrev pub drop_keys : List K → View K V → View K V
  drop_keys ks w = record {
    items = λ j. if contains j ks then [] else w.items j;
    score = λ j v. if contains j ks then none else w.score j v;
    flag = λ j. if contains j ks then false else w.flag j;
  }

-- The commands, and their documented effect. `blmove` is the command once it returns: when it finds
-- an element it does what LMOVE does, and on an empty list it has waited for its whole timeout.
pub record Redis (K V : Type 0) ⦃k_eq : Eq K⦄ ⦃v_eq : Eq V⦄ : Type 1 where
  pub Db : Type 0
  pub view : Db → View K V
  pub rpush : K → List V → Db → Db
  pub lmove : K → K → Db → Option V × Db
  pub blmove : K → K → ℕ → Db → Option V × Db
  pub lrem : K → V → Db → ℕ × Db
  pub lpos : K → V → Db → Option ℕ
  pub zadd : K → V → ℕ → Db → Db
  pub zadd_nx : K → V → ℕ → Db → Db
  pub zrem : K → V → Db → ℕ × Db
  pub zrangebyscore : K → ℕ → Db → List V
  pub set_ex : K → ℕ → Db → Db
  pub delete : List K → Db → Db
  pub scan : (K → Bool) → Db → List K
  pub view-rpush :
      (k : K) (vs : List V) (db : Db)
      → view (rpush k vs db) ≡ put_items k ((view db).items k ++ vs) (view db)
  pub lmove-result :
      (src dst : K) (db : Db)
      → (lmove src dst db).0 ≡ (move_head src dst ((view db).items src) (view db)).0
  pub view-lmove :
      (src dst : K) (db : Db)
      → view (lmove src dst db).1 ≡ (move_head src dst ((view db).items src) (view db)).1
  pub blmove-result :
      (src dst : K) (timeout : ℕ) (db : Db)
      → (blmove src dst timeout db).0 ≡ (move_head src dst ((view db).items src) (view db)).0
  pub view-blmove :
      (src dst : K) (timeout : ℕ) (db : Db)
      → view (blmove src dst timeout db).1 ≡ (move_head src dst ((view db).items src) (view db)).1
  pub lrem-result :
      (k : K) (v : V) (db : Db)
      → (lrem k v db).0 ≡ (if contains v ((view db).items k) then 1 else 0)
  pub view-lrem :
      (k : K) (v : V) (db : Db)
      → view (lrem k v db).1 ≡ put_items k (erase_first v ((view db).items k)) (view db)
  pub lpos-result : (k : K) (v : V) (db : Db) → lpos k v db ≡ index_of v ((view db).items k)
  pub view-zadd :
      (k : K) (v : V) (s : ℕ) (db : Db) → view (zadd k v s db) ≡ put_score k v (some s) (view db)
  pub view-zadd_nx :
      (k : K) (v : V) (s : ℕ) (db : Db)
      → view (zadd_nx k v s db)
        ≡ (if is_some ((view db).score k v) then view db else put_score k v (some s) (view db))
  pub view-zrem : (k : K) (v : V) (db : Db) → view (zrem k v db).1 ≡ put_score k v none (view db)
  pub contains-zrangebyscore :
      (k : K) (max : ℕ) (db : Db) (v : V)
      → contains v (zrangebyscore k max db) ≡ is_due max ((view db).score k v)
  pub view-set_ex : (k : K) (ttl : ℕ) (db : Db) → view (set_ex k ttl db) ≡ put_flag k (view db)
  pub view-delete : (ks : List K) (db : Db) → view (delete ks db) ≡ drop_keys ks (view db)
  pub contains-scan :
      (p : K → Bool) (db : Db) (k : K) → contains k (scan p db) ≡ (p k && (view db).flag k)
