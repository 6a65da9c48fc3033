-- ===== src/Redis/Memory.antt =====
-- A server held in memory, which shows that the interface can be met.
use practical_project.Base.{
  ℕ, ◌≡◌, refl, ap, ◌∙◌, fun_ext, Bool, true, false, not, ◌&&◌, List, [], ◌∷◌, ◌++◌, Option, none,
  some, arith, if◌then◌else◌, Bool-cases, inl, inr,
}
use practical_project.Base.Classes.{Eq, ◌==◌, contains, index_of, erase_first}
use practical_project.Redis.{
  View, Redis, is_some, is_due, put_items, put_score, put_flag, move_head, drop_keys,
}

module _ {K V : Type 0} ⦃k_eq : Eq K⦄ ⦃v_eq : Eq V⦄ where
  abbrev pub score_in : List (K × V × ℕ) → K → V → Option ℕ
  score_in [] k v = none
  score_in ((j, u, s) ∷ zs) k v = if j == k && u == v then some s else score_in zs k v

  abbrev pub without : K → V → List (K × V × ℕ) → List (K × V × ℕ)
  without k v [] = []
  without k v ((j, u, s) ∷ zs) =
      let rest = without k v zs in if k == j && v == u then rest else (j, u, s) ∷ rest

  abbrev pub without_keys : List K → List (K × V × ℕ) → List (K × V × ℕ)
  without_keys ks [] = []
  without_keys ks ((j, u, s) ∷ zs) =
      let rest = without_keys ks zs in if contains j ks then rest else (j, u, s) ∷ rest

  -- The members of `k` that `due` selects.
  abbrev pub select : K → (V → Bool) → List (K × V × ℕ) → List V
  select k due [] = []
  select k due ((j, u, s) ∷ zs) =
      let rest = select k due zs in if j == k && due u then u ∷ rest else rest

  score-without :
      (k : K) (v : V) (zs : List (K × V × ℕ)) (j : K) (u : V)
      → score_in (without k v zs) j u ≡ (if k == j && v == u then none else score_in zs j u)
  score-without k v [] j u = ground arith
  score-without k v ((i, w, s) ∷ zs) j u = ground (
    arith,
    score-without k v zs j u,
    k_eq.equal_iff k j,
    k_eq.equal_iff k i,
    k_eq.equal_iff i j,
    v_eq.equal_iff v u,
    v_eq.equal_iff v w,
    v_eq.equal_iff w u,
  )

  score-without_keys :
      (ks : List K) (zs : List (K × V × ℕ)) (j : K) (u : V)
      → score_in (without_keys ks zs) j u ≡ (if contains j ks then none else score_in zs j u)
  score-without_keys ks [] j u = ground arith
  score-without_keys ks ((i, w, s) ∷ zs) j u = elim (Bool-cases (i == j)) [
    | inl same ↦ rw ((k_eq.equal_iff i j).0 same) (ground (arith, score-without_keys ks zs j u))
    | inr other ↦ ground (arith, score-without_keys ks zs j u)
  ]

  contains-select :
      (k : K) (max : ℕ) (score : V → Option ℕ) (zs : List (K × V × ℕ)) (v : V)
      → contains v (select k (λ u. is_due max (score u)) zs)
        ≡ (is_due max (score v) && is_some (score_in zs k v))
  contains-select k max score [] v = ground arith
  contains-select k max score ((j, u, s) ∷ zs) v = elim (Bool-cases (v == u)) [
    | inl same ↦
        rw ((v_eq.equal_iff v u).0 same)
          (ground (arith, contains-select k max score zs u, v_eq.equal_iff u u))
    | inr other ↦
        ground (arith, contains-select k max score zs v, v_eq.equal_iff u v, v_eq.equal_iff v u)
  ]

due-some : (max : ℕ) (s : Option ℕ) → (is_due max s && is_some s) ≡ is_due max s
due-some max none = refl
due-some max (some s) = ground arith

module _ {K : Type 0} ⦃k_eq : Eq K⦄ where
  -- `xs` less the elements that `p` rejects.
  abbrev pub keep : (K → Bool) → List K → List K
  keep p [] = []
  keep p (x ∷ xs) = let rest = keep p xs in if p x then x ∷ rest else rest

  pub contains-keep :
      (p : K → Bool) (xs : List K) (k : K) → contains k (keep p xs) ≡ (p k && contains k xs)
  contains-keep p [] k = ground arith
  contains-keep p (x ∷ xs) k = elim (Bool-cases (k == x)) [
    | inl same ↦
        rw ((k_eq.equal_iff k x).0 same) (ground (arith, contains-keep p xs x, k_eq.equal_iff x x))
    | inr other ↦ ground (arith, contains-keep p xs k)
  ]

pub record Store (K V : Type 0) : Type 0 where
  pub lists : K → List V
  pub scores : List (K × V × ℕ)
  pub flags : List K

module _ {K V : Type 0} ⦃k_eq : Eq K⦄ ⦃v_eq : Eq V⦄ where
  abbrev pub observe : Store K V → View K V
  observe s = record { items = s.lists; score = score_in s.scores; flag = λ k. contains k s.flags }

  abbrev pub move_list : K → K → List V → Store K V → Option V × Store K V
  move_list src dst [] s = (none, s)
  move_list src dst (v ∷ vs) s =
      let w = put_items src vs (observe s) in
      (some v, record s { lists = (put_items dst (w.items dst ++ v ∷ []) w).items })

  abbrev pub move : K → K → Store K V → Option V × Store K V
  move src dst s = move_list src dst (s.lists src) s

  pub move_list-result :
      (src dst : K) (xs : List V) (s : Store K V)
      → (move_list src dst xs s).0 ≡ (move_head src dst xs (observe s)).0
  move_list-result src dst [] s = refl
  move_list-result src dst (v ∷ vs) s = refl

  pub observe-move_list :
      (src dst : K) (xs : List V) (s : Store K V)
      → observe (move_list src dst xs s).1 ≡ (move_head src dst xs (observe s)).1
  observe-move_list src dst [] s = refl
  observe-move_list src dst (v ∷ vs) s = refl

  abbrev pub put : K → V → ℕ → Store K V → Store K V
  put k v n s = record s { scores = (k, v, n) ∷ s.scores }

  pub observe-put :
      (k : K) (v : V) (n : ℕ) (s : Store K V)
      → observe (put k v n s) ≡ put_score k v (some n) (observe s)
  observe-put k v n s = refl

  abbrev pub put_new : K → V → ℕ → Store K V → Store K V
  put_new k v n s = if is_some (score_in s.scores k v) then s else put k v n s

  pub observe-put_new :
      (k : K) (v : V) (n : ℕ) (s : Store K V)
      → observe (put_new k v n s) ≡ (
          if is_some (score_in s.scores k v) then observe s else put_score k v (some n) (observe s))
  observe-put_new k v n s = elim (Bool-cases (is_some (score_in s.scores k v))) [
    | inl old ↦ rw old
    | inr new ↦ rw new
  ]

  pub observe-without :
      (k : K) (v : V) (s : Store K V)
      → observe (record s { scores = without k v s.scores }) ≡ put_score k v none (observe s)
  observe-without k v s =
      let e : score_in (without k v s.scores) ≡ (put_score k v none (observe s)).score =
        fun_ext λ j. fun_ext λ u. score-without k v s.scores j u in
      ap (λ (f : K → V → Option ℕ). record (observe s) { score = f }) e

  abbrev pub due : K → ℕ → Store K V → List V
  due k max s = select k (λ u. is_due max (score_in s.scores k u)) s.scores

  pub contains-due :
      (k : K) (max : ℕ) (s : Store K V) (v : V)
      → contains v (due k max s) ≡ is_due max (score_in s.scores k v)
  contains-due k max s v =
      contains-select k max (score_in s.scores k) s.scores v ∙ due-some max (score_in s.scores k v)

  abbrev pub drop_all : List K → Store K V → Store K V
  drop_all ks s = record {
    lists = λ j. if contains j ks then [] else s.lists j;
    scores = without_keys ks s.scores;
    flags = keep (λ k. not (contains k ks)) s.flags;
  }

  flag-drop_all :
      (ks : List K) (s : Store K V) (j : K)
      → contains j (keep (λ k. not (contains k ks)) s.flags)
        ≡ (if contains j ks then false else contains j s.flags)
  flag-drop_all ks s j = rw contains-keep (ground arith)

  pub observe-drop_all :
      (ks : List K) (s : Store K V) → observe (drop_all ks s) ≡ drop_keys ks (observe s)
  observe-drop_all ks s i = record {
    items = λ j. if contains j ks then [] else s.lists j;
    score = λ j u. score-without_keys ks s.scores j u i;
    flag = λ j. flag-drop_all ks s j i;
  }

  pub observe-put_flag :
      (k : K) (s : Store K V) → observe (record s { flags = k ∷ s.flags }) ≡ put_flag k (observe s)
  observe-put_flag k s i = record {
    items = s.lists;
    score = score_in s.scores;
    flag = λ j. flag j i;
  }
    where
      flag : (j : K) → contains j (k ∷ s.flags) ≡ (if k == j then true else contains j s.flags)
      flag j = ground (arith, k_eq.equal_iff k j, k_eq.equal_iff j k)

-- The server: one step for each command.
abbrev pub memory : {K V : Type 0} ⦃k_eq : Eq K⦄ ⦃v_eq : Eq V⦄ → Redis K V
memory {K} {V} = record {
  Db = Store K V;
  view = observe;
  rpush = λ k vs s. record s { lists = (put_items k (s.lists k ++ vs) (observe s)).items };
  lmove = move;
  blmove = λ src dst timeout s. move src dst s;
  lrem = λ k v s. (
    if contains v (s.lists k) then 1 else 0,
    record s { lists = (put_items k (erase_first v (s.lists k)) (observe s)).items },
  );
  lpos = λ k v s. index_of v (s.lists k);
  zadd = put;
  zadd_nx = put_new;
  zrem = λ k v s. (
    if is_some (score_in s.scores k v) then 1 else 0,
    record s { scores = without k v s.scores },
  );
  zrangebyscore = due;
  set_ex = λ k ttl s. record s { flags = k ∷ s.flags };
  delete = drop_all;
  scan = λ p s. keep p s.flags;
  view-rpush = λ k vs s. refl;
  lmove-result = λ src dst s. move_list-result src dst (s.lists src) s;
  view-lmove = λ src dst s. observe-move_list src dst (s.lists src) s;
  blmove-result = λ src dst timeout s. move_list-result src dst (s.lists src) s;
  view-blmove = λ src dst timeout s. observe-move_list src dst (s.lists src) s;
  lrem-result = λ k v s. refl;
  view-lrem = λ k v s. refl;
  lpos-result = λ k v s. refl;
  view-zadd = observe-put;
  view-zadd_nx = observe-put_new;
  view-zrem = observe-without;
  contains-zrangebyscore = contains-due;
  view-set_ex = λ k ttl s. observe-put_flag k s;
  view-delete = observe-drop_all;
  contains-scan = λ p s k. contains-keep p s.flags k;
}
