-- ===== src/Spec/Isolation.antt =====
-- Without external access, what `validateAndLabel` accepts is isolated, node by node.
use labcontainers.Prelude.{
  String, ◌≡◌, ◌∙◌, refl, ap, inl, inr, true, false, ◌||◌, List, [], ◌∷◌, All, Result, ok, err,
  ◌==◌, eq_iff, arith, Bool-cases, Ensures, Ensures-bind, Ensures-ok, or_fail, ◌>>=◌,
}
use labcontainers.Spec.Yaml.{Yaml, Yamls, nil, cons, value_of, content, with_content, replace_value}
use labcontainers.Spec.Native.{Bytes, Native, Libs, Resolves, set_mode}
use labcontainers.Spec.Links.{PrepareError, unrenderable, check_links}
use labcontainers.Spec.Nodes.{
  is_bridge, is_implicit, default_native, default_mode, validate_node, validate_nodes,
  validate_and_label,
}
use labcontainers.Spec.Prepare.{
  Prepared, Options, Draft, draft, locate, decode_native, bind_topology, sort, is_test_node,
  names_of, is_isolated_node, select, prepare_with_options,
}

module _ (libs : Libs) (res : Resolves libs) where
  abbrev IsIsolated : Native → String → Type 0
  IsIsolated native name = is_isolated_node libs native name ≡ true

  IsIsolated-parts :
      (t : Native) (m : String)
      → IsIsolated t m
      → (is_bridge (libs.node_kind t m) ≡ false) × (libs.node_mode t m ≡ "none")
  IsIsolated-parts t m h = ground (arith, eq_iff (libs.node_mode t m) "none")

  IsIsolated-of_parts :
      (t : Native) (m : String)
      → is_bridge (libs.node_kind t m) ≡ false
      → libs.node_mode t m ≡ "none"
      → IsIsolated t m
  IsIsolated-of_parts t m k h = rw (k, h)

  set_mode-IsIsolated :
      (t : Native) (n m : String) → IsIsolated t m → IsIsolated (set_mode t n "none") m
  set_mode-IsIsolated t n m h = IsIsolated-of_parts (set_mode t n "none") m kind mode
    where
      parts : (is_bridge (libs.node_kind t m) ≡ false) × (libs.node_mode t m ≡ "none")
      parts = IsIsolated-parts t m h

      kind : is_bridge (libs.node_kind (set_mode t n "none") m) ≡ false
      kind = rw (res.kind_same t n m) parts.0

      mode : libs.node_mode (set_mode t n "none") m ≡ "none"
      mode = elim (Bool-cases (n == m)) [
        | inl e ↦ rw (← (eq_iff n m).0 e) (res.mode_self t n)
        | inr e ↦ res.mode_other t n m (λ p. cc (e, (eq_iff n m).1 p)) ∙ parts.1
      ]

  module _ (session_id : String) where
    default_native-IsIsolated :
        (t : Native) (n m : String)
        → IsIsolated t m
        → IsIsolated (default_native libs session_id false t n) m
    unfolding default_native
    default_native-IsIsolated t n m h = elim (Bool-cases (is_implicit libs session_id false t n)) [
      | inl e ↦ rw e (set_mode-IsIsolated t n m h)
      | inr e ↦ rw e h
    ]

    -- The mode that the checks see is the one that the native topology resolves to.
    default_mode-eq :
        (t : Native) (n : String)
        → libs.node_mode (default_native libs session_id false t n) n
          ≡ default_mode libs session_id false t n
    unfolding default_native default_mode
    default_mode-eq t n = elim (Bool-cases (is_implicit libs session_id false t n)) [
      | inl e ↦ rw e (res.mode_self t n)
      | inr e ↦ rw e
    ]

    default_native-kind :
        (t : Native) (n : String)
        → libs.node_kind (default_native libs session_id false t n) n ≡ libs.node_kind t n
    unfolding default_native
    default_native-kind t n = elim (Bool-cases (is_implicit libs session_id false t n)) [
      | inl e ↦ rw e (res.kind_same t n n)
      | inr e ↦ rw e
    ]

    validate_node_result :
        (t : Native) (name : String) (n : Yaml) {r : Yaml × Native}
        → validate_node libs session_id false t name n ≡ ok r
        → (r.1 ≡ default_native libs session_id false t name)
          × (is_bridge (libs.node_kind t name) ≡ false)
          × ((is_bridge (libs.node_kind (default_native libs session_id false t name) name)
                || default_mode libs session_id false t name == "none")
              ≡ true)
    unfolding validate_node
    validate_node_result t name n h = ground arith

    validate_node-IsIsolated :
        (t : Native) (name : String) (n : Yaml) {r : Yaml × Native}
        → validate_node libs session_id false t name n ≡ ok r
        → IsIsolated r.1 name
    validate_node-IsIsolated t name n h =
        let (e, kind, mode) = validate_node_result t name n h in
        let kind' = default_native-kind t name in
        rw e (
          IsIsolated-of_parts (default_native libs session_id false t name) name (rw kind' kind)
            (default_mode-eq t name ∙ (eq_iff _ "none").0 (rw (kind', kind) at mode)))

    validate_node-keeps :
        (t : Native) (name m : String) (n : Yaml) {r : Yaml × Native}
        → validate_node libs session_id false t name n ≡ ok r
        → IsIsolated t m
        → IsIsolated r.1 m
    validate_node-keeps t name m n h i =
        rw (validate_node_result t name n h).0 (default_native-IsIsolated t name m i)

    -- What a run over the nodes establishes.
    abbrev Sound : Native → Yamls → Result PrepareError (Yamls × Native) → Type 0
    Sound t c (ok r) =
        (names_of r.0 ≡ names_of c)
        × ((m : String) → IsIsolated t m → IsIsolated r.1 m)
        × All (IsIsolated r.1) (names_of r.0)
    Sound t c (err e) = Unit

    abbrev onto :
        Yaml → Yaml → Result PrepareError (Yamls × Native) → Result PrepareError (Yamls × Native)
    onto k n r = r >>= λ r'. ok (cons k (cons n r'.0), r'.1)

    Sound-onto :
        (t t' : Native) (k n n' : Yaml) (rest : Yamls) (r : Result PrepareError (Yamls × Native))
        → validate_node libs session_id false t (value_of k) n ≡ ok (n', t')
        → Sound t' rest r
        → Sound t (cons k (cons n rest)) (onto k n' r)
    unfolding names_of
    Sound-onto t t' k n n' rest (err e) first s = tt
    Sound-onto t t' k n n' rest (ok r) first (same, keeps, all) = (
      ap (λ ns. value_of k ∷ ns) same,
      λ m i. keeps m (validate_node-keeps t (value_of k) m n first i),
      (keeps (value_of k) (validate_node-IsIsolated t (value_of k) n first), all),
    )

    Sound-bind :
        (t : Native) (k n : Yaml) (rest : Yamls) (r : Result PrepareError (Yaml × Native))
        → validate_node libs session_id false t (value_of k) n ≡ r
        → ((t' : Native) → Sound t' rest (validate_nodes libs session_id false t' rest))
        → Sound t
            (cons k (cons n rest))
            (r >>= λ x. onto k x.0 (validate_nodes libs session_id false x.1 rest))
    Sound-bind t k n rest (err e) first s = tt
    Sound-bind t k n rest (ok (n', t')) first s = Sound-onto t t' k n n' rest _ first (s t')

    validate_nodes-Sound :
        (c : Yamls) (t : Native) → Sound t c (validate_nodes libs session_id false t c)
    unfolding validate_nodes names_of
    validate_nodes-Sound nil t = (refl, (λ m i. i), tt)
    validate_nodes-Sound (cons k nil) t = (refl, (λ m i. i), tt)
    validate_nodes-Sound (cons k (cons n rest)) t =
        Sound-bind t k n rest (validate_node libs session_id false t (value_of k) n) refl
          (validate_nodes-Sound rest)

    abbrev AllIsolated : Yamls × Native → Type 0
    AllIsolated r = All (IsIsolated r.1) (names_of r.0)

    Sound-result :
        (c : Yamls) (t : Native) (r : Yamls × Native)
        → validate_nodes libs session_id false t c ≡ ok r
        → Sound t c (ok r)
    Sound-result c t r h = rw h at (validate_nodes-Sound c t)

    validate_and_label-AllIsolated :
        (c : Yamls) (t : Native)
        → Ensures AllIsolated (validate_and_label libs session_id false c t)
    unfolding validate_and_label
    validate_and_label-AllIsolated c t =
        Ensures-bind AllIsolated (validate_nodes libs session_id false t c) _ λ r h.
          Ensures-bind AllIsolated (check_links (libs.links r.1)) _ λ _ _. (Sound-result c t r h).2

    abbrev DraftIsolated : Draft → Type 0
    DraftIsolated d = AllIsolated (d.labelled, d.native)

    draft-DraftIsolated :
        (input : Bytes) (name : String) (o : Options)
        → Ensures DraftIsolated (draft libs input name session_id false o)
    unfolding draft
    draft-DraftIsolated input name o = Ensures-bind DraftIsolated (locate libs input name) _ λ l _.
        Ensures-bind DraftIsolated (decode_native libs l.topology) _ λ native _.
          Ensures-bind DraftIsolated
            (validate_and_label libs session_id false (content l.nodes) native) _
            λ r h.
              Ensures-bind DraftIsolated
                (bind_topology libs o (replace_value l.topology "nodes" (with_content l.nodes r.0)))
                _
                λ _ _.
                  Ensures-ok AllIsolated (validate_and_label-AllIsolated (content l.nodes) native) h

  select-All :
      (t : Native) (names : List String)
      → All (IsIsolated t) names
      → (select (is_isolated_node libs t) names ≡ names)
        × (select (is_test_node libs t) names ≡ names)
  unfolding select
  select-All t [] a = (refl, refl)
  select-All t (n ∷ ns) (i, a) = ground (arith, select-All t ns a)

  abbrev Whole : Prepared → Type 0
  Whole p = (p.isolated_nodes ≡ p.nodes) × (p.test_nodes ≡ p.nodes)

  prepare_with_options-Whole :
      (input : Bytes) (name session_id : String) (o : Options)
      → Ensures Whole (prepare_with_options libs input name session_id false o)
  unfolding prepare_with_options
  prepare_with_options-Whole input name session_id o =
      Ensures-bind Whole (draft libs input name session_id false o) _ λ d h.
        Ensures-bind Whole
          (or_fail (libs.render (with_content d.doc (cons d.root nil))) unrenderable) _
          λ out _.
            let s = select-All d.native (names_of d.labelled) (
              Ensures-ok (DraftIsolated session_id) (draft-DraftIsolated session_id input name o)
                h) in
            (ap sort s.0, ap sort s.1)

-- Where Containerlab resolves network modes as documented, every node of a topology that was
-- prepared without external access is a test node and an isolated one, so that the isolation proof after the deployment leaves none out.
pub prepare_isolates :
    (libs : Libs) (input : Bytes) (name session_id : String) (o : Options) {p : Prepared}
    → Resolves libs
    → prepare_with_options libs input name session_id false o ≡ ok p
    → (p.isolated_nodes ≡ p.nodes) × (p.test_nodes ≡ p.nodes)
prepare_isolates libs input name session_id o res h =
    Ensures-ok (Whole libs res) (prepare_with_options-Whole libs res input name session_id o) h
