-- ===== src/Spec/Prepare.antt =====
-- `PrepareWithOptions` of pkg/spec/topology.go, and `AddNodeBind`.
use Prim.Native.Nat.{Ordering}
use Prim.Native.String.{compare}
use Prim.Native.Char.{code}
use labcontainers.Prelude.{
  String, Bool, true, false, not, ◌&&◌, ◌||◌, Option, none, some, List, [], ◌∷◌, Map, Result, ok,
  err, guard, or_fail, ◌>>=◌, ◌>>◌, ◌==◌, nat_eq, if◌then◌else◌,
}
use labcontainers.Prelude.FilePath.{◌⧺◌, is_abs, join, cut}
use labcontainers.Spec.Yaml.{
  Yaml, Yamls, node, nil, cons, is_mapping, is_sequence, tag_of, value_of, content, with_content,
  text, put_value, mapping_value, replace_value, ensure_sequence, append_all, append_texts,
  set_scalar, ensure_mgmt_skipped, mapping_root,
}
use labcontainers.Spec.Name.{sanitize}
use labcontainers.Spec.Native.{Bytes, Native, Libs}
use labcontainers.Spec.Links.{
  PrepareError, unparsable, no_mapping_root, empty_name, no_topology, no_nodes, bad_mgmt,
  undecodable, null_definition, bad_binds, unknown_node, unrenderable,
}
use labcontainers.Spec.Nodes.{is_bridge, validate_and_label}

pub record Prepared : Type 0 where
  pub yaml : Bytes
  pub name : String
  pub nodes : List String
  pub test_nodes : List String
  pub isolated_nodes : List String

pub record Options : Type 0 where
  pub node_binds : Map (List String)
  pub base_dir : String

-- Host paths are made absolute; a bind without a host part, an absolute one and one that begins
-- with a variable stay.
abbrev is_variable : String → Bool
is_variable String.[] = false
is_variable (String.◌∷◌ c s) = nat_eq (code c) b'$'

absolute_bind : String → String → String
unfolding cut join
absolute_bind base bind = elim (cut b':' bind) [
  | none ↦ bind
  | some (host, rest) ↦
      if host == "" || is_abs host || is_variable host then bind else join base host ⧺ ":" ⧺ rest
]

absolute_binds : String → Yamls → Yamls
unfolding absolute_bind
absolute_binds base nil = nil
absolute_binds base (cons (node k t v c) rest) =
    cons (node k t (absolute_bind base v) c) (absolute_binds base rest)

-- One definition, `parent` itself or a mapping under it.
absolutize_definition : String → Yaml → Result PrepareError Yaml
unfolding absolute_binds mapping_value put_value
absolutize_definition base n = elim (mapping_value (some n) "binds") [
  | none ↦ ok n
  | some binds ↦
      if is_sequence binds
      then ok (replace_value n "binds" (with_content binds (absolute_binds base (content binds))))
      else err bad_binds
]

absolutize_values : String → Yamls → Result PrepareError Yamls
unfolding absolutize_definition
absolutize_values base (cons k (cons v rest)) = do
  v' ← if is_mapping v then absolutize_definition base v else ok v
  rest' ← absolutize_values base rest
  ok (cons k (cons v' rest'))
absolutize_values base rest = ok rest

unfoldable pub absolutize_binds : String → Yaml → Result PrepareError Yaml
unfolding absolutize_values
absolutize_binds base parent =
    if is_mapping parent
    then (do
      parent' ← absolutize_definition base parent
      values ← absolutize_values base (content parent')
      ok (with_content parent' values))
    else ok parent

-- `absolutizeBinds` on what `mappingValue(topology, key)` points to.
absolutize_section : String → String → Yaml → Result PrepareError Yaml
unfolding absolutize_binds mapping_value put_value
absolutize_section base key topology = elim (mapping_value (some topology) key) [
  | none ↦ ok topology
  | some parent ↦ do parent' ← absolutize_binds base parent; ok (replace_value topology key parent')
]

absolutize : String → Yaml → Result PrepareError Yaml
unfolding absolutize_section
absolutize base topology = if base == "" then ok topology else do
  t1 ← absolutize_section base "defaults" topology
  t2 ← absolutize_section base "groups" t1
  t3 ← absolutize_section base "kinds" t2
  absolutize_section base "nodes" t3

-- The binds of the session's own attachments.
add_binds : Map (List String) → Yaml → Result PrepareError Yaml
unfolding mapping_value put_value ensure_sequence append_texts
add_binds [] nodes = ok nodes
add_binds ((name, binds) ∷ rest) nodes = do
  n ← or_fail (mapping_value (some nodes) name) unknown_node
  let n' = ensure_sequence n "binds" (λ s. with_content s (append_texts binds (content s)))
  add_binds rest (replace_value nodes name n')

unfoldable pub names_of : Yamls → List String
names_of (cons k (cons v rest)) = value_of k ∷ names_of rest
names_of _ = []

module _ (libs : Libs) (native : Native) where
  abbrev pub is_test_node : String → Bool
  is_test_node name = not (is_bridge (libs.node_kind native name))

  abbrev pub is_isolated_node : String → Bool
  is_isolated_node name = is_test_node name && libs.node_mode native name == "none"

unfoldable pub select : (String → Bool) → List String → List String
select p [] = []
select p (x ∷ xs) = let rest = select p xs in if p x then x ∷ rest else rest

abbrev pub before : String → String → Bool
before s t = elim (compare s t) [ Ordering.gt ↦ false | _ ↦ true ]

insert_sorted : String → List String → List String
insert_sorted s [] = s ∷ []
insert_sorted s (t ∷ ts) = if before s t then s ∷ t ∷ ts else t ∷ insert_sorted s ts

-- `sort.Strings`
unfoldable pub sort : List String → List String
unfolding insert_sorted
sort [] = []
sort (s ∷ ss) = insert_sorted s (sort ss)

abbrev all_present : Map Bool → Bool
all_present [] = true
all_present ((name, present) ∷ rest) = present && all_present rest

abbrev is_empty : Yamls → Bool
is_empty nil = true
is_empty _ = false

-- `mgmt` may be absent or null, and a mapping otherwise.
abbrev mgmt_fits : Option Yaml → Bool
mgmt_fits none = true
mgmt_fits (some m) = is_mapping m || tag_of m == "!!null"

-- The parts of the parsed document, its name already set.
pub record Located : Type 0 where
  pub doc : Yaml
  pub root : Yaml
  pub name : String
  pub topology : Yaml
  pub nodes : Yaml

-- The prepared topology, still a tree: its root, its nodes, and the native topology.
pub record Draft : Type 0 where
  pub doc : Yaml
  pub root : Yaml
  pub name : String
  pub labelled : Yamls
  pub native : Native

module _ (libs : Libs) where
  unfoldable pub locate : Bytes → String → Result PrepareError Located
  unfolding mapping_value
  locate input session_name = do
    doc ← or_fail (libs.parse input) unparsable
    root ← or_fail (mapping_root doc) no_mapping_root
    let name = sanitize session_name
    guard (not (name == "")) empty_name
    let root' = set_scalar root "name" name
    topology ← or_fail (mapping_value (some root') "topology") no_topology
    guard (is_mapping topology) no_topology
    nodes ← or_fail (mapping_value (some topology) "nodes") no_nodes
    guard (is_mapping nodes && not (is_empty (content nodes))) no_nodes
    guard (mgmt_fits (mapping_value (some root') "mgmt")) bad_mgmt
    ok (record { doc = doc; root = root'; name = name; topology = topology; nodes = nodes })

  unfoldable pub decode_native : Yaml → Result PrepareError Native
  decode_native topology = do
    raw ← or_fail (libs.render topology) unrenderable
    definitions ← or_fail (libs.definitions raw) undecodable
    guard (all_present definitions) null_definition
    ok (record { source = raw; modes = [] })

  -- The binds: made absolute, and those of the session's attachments added. The nodes are still
  -- there, so that the second look never fails.
  unfoldable pub bind_topology : Options → Yaml → Result PrepareError Yaml
  unfolding absolutize add_binds mapping_value put_value
  bind_topology options topology = do
    topology' ← absolutize options.base_dir topology
    nodes ← or_fail (mapping_value (some topology') "nodes") no_nodes
    nodes' ← add_binds options.node_binds nodes
    ok (replace_value topology' "nodes" nodes')

  unfoldable pub draft : Bytes → String → String → Bool → Options → Result PrepareError Draft
  unfolding locate decode_native bind_topology put_value
  draft input session_name session_id allow_external options = do
    l ← locate input session_name
    native ← decode_native l.topology
    r ← validate_and_label libs session_id allow_external (content l.nodes) native
    topology ← bind_topology options (replace_value l.topology "nodes" (with_content l.nodes r.0))
    ok (record {
      doc = l.doc;
      root = replace_value (ensure_mgmt_skipped l.root) "topology" topology;
      name = l.name;
      labelled = r.0;
      native = r.1;
    })

  abbrev pub prepared : Draft → Bytes → Prepared
  prepared d out = record {
    yaml = out;
    name = d.name;
    nodes = sort (names_of d.labelled);
    test_nodes = sort (select (is_test_node libs d.native) (names_of d.labelled));
    isolated_nodes = sort (select (is_isolated_node libs d.native) (names_of d.labelled));
  }

  unfoldable pub prepare_with_options :
      Bytes → String → String → Bool → Options → Result PrepareError Prepared
  unfolding draft
  prepare_with_options input session_name session_id allow_external options = do
    d ← draft input session_name session_id allow_external options
    out ← or_fail (libs.render (with_content d.doc (cons d.root nil))) unrenderable
    ok (prepared d out)

  unfoldable pub prepare : Bytes → String → String → Bool → Result PrepareError Prepared
  unfolding prepare_with_options
  prepare input session_name session_id allow_external =
      prepare_with_options input session_name session_id allow_external
        (record { node_binds = []; base_dir = "" })

abbrev has_text : String → Yamls → Bool
has_text s nil = false
has_text s (cons n rest) = value_of n == s || has_text s rest

abbrev add_text : String → Yaml → Yaml
add_text s n =
    if has_text s (content n)
    then n
    else with_content n (append_all (content n) (cons (text s) nil))

abbrev put_back : Option Yaml → String → Yaml → Yaml
put_back none key x = x
put_back (some parent) key x = replace_value parent key x

-- `AddNodeBind`; a bind that is there is not added again.
unfoldable pub add_node_bind : Libs → Bytes → String → String → Result PrepareError Bytes
unfolding mapping_value put_value ensure_sequence append_all
add_node_bind libs input name bind = do
  doc ← or_fail (libs.parse input) unparsable
  root ← or_fail (mapping_root doc) no_mapping_root
  let topology = mapping_value (some root) "topology"
  let nodes = mapping_value topology "nodes"
  n ← or_fail (mapping_value nodes name) unknown_node
  let nodes' = put_back nodes name (ensure_sequence n "binds" (add_text bind))
  let root' = put_back (some root) "topology" (put_back topology "nodes" nodes')
  or_fail (libs.render (with_content doc (cons root' nil))) unrenderable
