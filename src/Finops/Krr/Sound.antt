-- ===== src/Finops/Krr/Sound.antt =====
-- The entries that finops/app/clients.py reads in KRR's output.
use practical_project.Base.{
  ℕ, ◌≡◌, refl, sym, ap, ◌∙◌, if◌then◌else◌, Bool, true, false, not, ◌||◌, List, [], ◌∷◌, some,
  arith, All, Bool-cases, inl, inr,
}
use practical_project.Base.Classes.{nat_eq}
use practical_project.Base.Equality.{list_eq, list_beq_iff}
use practical_project.Base.Raises.{
  ◌>>=◌, Ensures, Ensures-bind, Ensures-bind_of, Ensures-some, Ensures-then,
}
use practical_project.Base.Dict.{put, All-put}
use practical_project.Base.Json.{Json, null, bool, num, str, arr, obj, truthy, is_text, get}
use practical_project.Float.{Floats}
use practical_project.Float.Literal.{codes}
use practical_project.Finops.Krr.{Entry, Results}
use practical_project.Finops.Krr.Values.{is_zero}
use practical_project.Finops.Krr.Rows.{
  identifier, section, is_job, entry_of, is_skipped, add_row, add_rows, rows_of, parse_krr_output,
}

not_skipped :
    (here named contained job : Bool)
    → (not here || not named || not contained || job) ≡ false
    → (here ≡ true) × (named ≡ true) × (contained ≡ true) × (job ≡ false)
not_skipped here named contained job h = ground arith

is_text_lem : {N : Type 0} (t : List ℕ) (j : Json N) → is_text t j ≡ true → j ≡ str t
is_text_lem t null h = cc h
is_text_lem t (bool b) h = cc h
is_text_lem t (num x) h = cc h
is_text_lem t (str s) h = ap str ((list_beq_iff s t).0 h)
is_text_lem t (arr xs) h = cc h
is_text_lem t (obj fields) h = cc h

-- `Printed` holds of the rows that KRR prints.
module _ {F : Type 0} (fl : Floats F) (python_str : Json F → List ℕ) (Printed : Json F → Type 0)
    (namespace : List ℕ) where
  -- A row that says of itself that it is of the namespace, and that gives this entry.
  pub record IsRow (e : Entry F) : Type 0 where
    pub row : Json F
    pub object : Json F
    pub printed : Printed row
    pub object_lem : section fl (codes "object") row ≡ some object
    pub namespace_lem : get (codes "namespace") object ≡ some (str namespace)
    pub workload_lem : get (codes "name") object ≡ some e.workload
    pub container_lem : get (codes "container") object ≡ some e.container
    pub kind_lem : get (codes "kind") object ≡ some e.kind
    pub values_lem : entry_of fl namespace e.workload e.container e.kind object row ≡ some e

  -- An entry that a printed row of the namespace gives and that stands for one named container of a
  -- workload that is no job, under the key made of the three names.
  pub record IsSound (p : List ℕ × Entry F) : Type 0 where
    pub key_lem : p.0 ≡ identifier fl python_str namespace p.1.workload p.1.container
    pub namespace_lem : p.1.namespace ≡ namespace
    pub row_lem : IsRow p.1
    pub workload_named : truthy (is_zero fl) p.1.workload ≡ true
    pub container_named : truthy (is_zero fl) p.1.container ≡ true
    pub no_job : is_job p.1.kind ≡ false

  abbrev Copies : Json F → Json F → Json F → Entry F → Type 0
  Copies name container kind e =
      (e.namespace ≡ namespace) × (e.workload ≡ name) × (e.container ≡ container) × (e.kind ≡ kind)

  entry_of-Copies :
      (name container kind object scan : Json F)
      → Ensures (Copies name container kind) (entry_of fl namespace name container kind object scan)
  unfolding entry_of
  entry_of-Copies name container kind object scan = search (Ensures-bind) depth 16

  entry-IsSound :
      (name container kind object scan space : Json F) (e : Entry F)
      → Copies name container kind e
      → Printed scan
      → section fl (codes "object") scan ≡ some object
      → get (codes "namespace") object ≡ some space
      → get (codes "name") object ≡ some name
      → get (codes "container") object ≡ some container
      → get (codes "kind") object ≡ some kind
      → entry_of fl namespace name container kind object scan ≡ some e
      → is_skipped fl namespace space name container kind ≡ false
      → IsSound (identifier fl python_str namespace name container, e)
  entry-IsSound name container kind object scan space e c printed o s n k d v kept =
      let (here, named, contained, no_job) =
        not_skipped (is_text namespace space) (truthy (is_zero fl) name)
          (truthy (is_zero fl) container) (is_job kind) kept in
      let (ns, w, x, y) = c in
      record {
        key_lem = rw (w, x) refl;
        namespace_lem = ns;
        row_lem = record {
          row = scan;
          object = object;
          printed = printed;
          object_lem = o;
          namespace_lem = s ∙ ap some (is_text_lem namespace space here);
          workload_lem = n ∙ ap some (sym w);
          container_lem = k ∙ ap some (sym x);
          kind_lem = d ∙ ap some (sym y);
          values_lem = simp (w, x, y, v);
        };
        workload_named = rw w named;
        container_named = rw x contained;
        no_job = rw y no_job;
      }

  added_if :
      (name container kind object scan space : Json F) (results : Results F)
      → Printed scan
      → section fl (codes "object") scan ≡ some object
      → get (codes "namespace") object ≡ some space
      → get (codes "name") object ≡ some name
      → get (codes "container") object ≡ some container
      → get (codes "kind") object ≡ some kind
      → All IsSound results
      → Ensures (All IsSound) (
          if is_skipped fl namespace space name container kind
          then some results
          else (entry_of fl namespace name container kind object scan >>= λ e.
              some (put (identifier fl python_str namespace name container) e results)))
  added_if name container kind object scan space results printed o s n k d sound =
      elim (Bool-cases (is_skipped fl namespace space name container kind)) [
        | inl skipped ↦ rw skipped sound
        | inr kept ↦ rw kept (
            Ensures-bind_of (All IsSound) (entry_of fl namespace name container kind object scan) _
              (λ e given.
                All-put IsSound (identifier fl python_str namespace name container) e results
                  (entry-IsSound name container kind object scan space e
                    (Ensures-some (Copies name container kind) _ e
                      (entry_of-Copies name container kind object scan) given)
                    printed o s n k d given kept)
                  sound))
      ]

  add_row-AllSound :
      (scan : Json F) (results : Results F)
      → Printed scan
      → All IsSound results
      → Ensures (All IsSound) (add_row fl python_str namespace scan results)
  unfolding add_row
  add_row-AllSound scan results printed sound =
      Ensures-bind_of (All IsSound) (section fl (codes "object") scan) _ (λ object o.
        Ensures-bind_of (All IsSound) (get (codes "namespace") object) _ (λ space s.
          Ensures-bind_of (All IsSound) (get (codes "name") object) _ (λ name n.
            Ensures-bind_of (All IsSound) (get (codes "container") object) _ (λ container k.
              Ensures-bind_of (All IsSound) (get (codes "kind") object) _ (λ kind d.
                added_if name container kind object scan space results printed o s n k d sound)))))

  add_rows-AllSound :
      (scans : List (Json F)) (results : Results F)
      → All Printed scans
      → All IsSound results
      → Ensures (All IsSound) (add_rows fl python_str namespace scans results)
  unfolding add_rows
  add_rows-AllSound [] results printed sound = sound
  add_rows-AllSound (scan ∷ scans) results printed sound =
      Ensures-then (All IsSound) (All IsSound) (add_row fl python_str namespace scan results) _
        (add_row-AllSound scan results printed.0 sound)
        (λ (r : Results F) (s : All IsSound r). add_rows-AllSound scans r printed.1 s)

  pub parse_krr_output-AllSound :
      (output : Json F)
      → Ensures (All Printed) (rows_of output)
      → Ensures (All IsSound) (parse_krr_output fl python_str output namespace)
  unfolding parse_krr_output
  parse_krr_output-AllSound output printed =
      Ensures-then (All Printed) (All IsSound) (rows_of output) _ printed
        (λ rows p. add_rows-AllSound rows [] p tt)
