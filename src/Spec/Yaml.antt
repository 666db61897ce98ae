-- ===== src/Spec/Yaml.antt =====
-- The yaml.v3 syntax tree as pkg/spec/topology.go edits it, and its helpers on mapping nodes. A
-- pointer into the tree that the code writes through is an update of the tree here. The content of
-- a mapping is its keys and values by turns, which the YAML library keeps even in number.
use labcontainers.Prelude.{
  String, Bool, true, false, Option, none, some, ◌==◌, if◌then◌else◌, List, [], ◌∷◌,
}

pub data Kind : Type 0 where
  document sequence mapping scalar alias : Kind

mutual
  pub data Yaml : Type 0 where
    node : Kind → String → String → Yamls → Yaml

  pub data Yamls : Type 0 where
    nil : Yamls
    cons : Yaml → Yamls → Yamls

abbrev pub kind_of : Yaml → Kind
kind_of (node k t v c) = k

abbrev pub tag_of : Yaml → String
tag_of (node k t v c) = t

abbrev pub value_of : Yaml → String
value_of (node k t v c) = v

abbrev pub content : Yaml → Yamls
content (node k t v c) = c

abbrev pub with_content : Yaml → Yamls → Yaml
with_content (node k t v _) c = node k t v c

abbrev pub is_mapping : Yaml → Bool
is_mapping (node mapping t v c) = true
is_mapping (node _ t v c) = false

abbrev pub is_sequence : Yaml → Bool
is_sequence (node sequence t v c) = true
is_sequence (node _ t v c) = false

abbrev pub text : String → Yaml
text s = node scalar "!!str" s nil

abbrev pub empty_mapping : Yaml
empty_mapping = node mapping "!!map" "" nil

abbrev pub empty_sequence : Yaml
empty_sequence = node sequence "!!seq" "" nil

unfoldable pub append_all : Yamls → Yamls → Yamls
append_all nil ys = ys
append_all (cons x xs) ys = cons x (append_all xs ys)

-- The value of the first pair with this key.
unfoldable pub find_value : String → Yamls → Option Yaml
find_value key (cons k (cons v rest)) = if value_of k == key then some v else find_value key rest
find_value key _ = none

-- The first pair with this key gets the value; the rest stays.
unfoldable pub put_value : String → Yaml → Yamls → Yamls
put_value key x (cons k (cons v rest)) =
    if value_of k == key then cons k (cons x rest) else cons k (cons v (put_value key x rest))
put_value key x rest = rest

unfoldable pub mapping_value : Option Yaml → String → Option Yaml
unfolding find_value
mapping_value none key = none
mapping_value (some n) key = if is_mapping n then find_value key (content n) else none

-- `f` on what `mappingValue` points to.
abbrev pub replace_value : Yaml → String → Yaml → Yaml
replace_value n key x = with_content n (put_value key x (content n))

abbrev append_pair : Yaml → String → Yaml → Yaml
append_pair n key x = with_content n (append_all (content n) (cons (text key) (cons x nil)))

abbrev as_mapping : Yaml → Yaml
as_mapping v = if is_mapping v then v else empty_mapping

abbrev as_sequence : Yaml → Yaml
as_sequence v = if is_sequence v then v else empty_sequence

-- `ensureMapping(n, key)`, with the writes `f` that the caller makes through its result.
unfoldable pub ensure_mapping : Yaml → String → (Yaml → Yaml) → Yaml
unfolding mapping_value put_value append_all
ensure_mapping n key f = elim (mapping_value (some n) key) [
  | some v ↦ replace_value n key (f (as_mapping v))
  | none ↦ append_pair n key (f empty_mapping)
]

unfoldable pub ensure_sequence : Yaml → String → (Yaml → Yaml) → Yaml
unfolding mapping_value put_value append_all
ensure_sequence n key f = elim (mapping_value (some n) key) [
  | some v ↦ replace_value n key (f (as_sequence v))
  | none ↦ append_pair n key (f empty_sequence)
]

-- The loop of `setScalar` over the pairs, with the append after it.
unfoldable pub set_pair : String → String → Yamls → Yamls
set_pair key value (cons k (cons v rest)) =
    if value_of k == key
    then cons k (cons (text value) rest)
    else cons k (cons v (set_pair key value rest))
set_pair key value nil = cons (text key) (cons (text value) nil)
set_pair key value (cons k nil) = cons k (cons (text key) (cons (text value) nil))

unfoldable pub set_scalar : Yaml → String → String → Yaml
unfolding set_pair
set_scalar n key value = with_content n (set_pair key value (content n))

with_tag : String → Yaml → Yaml
with_tag t (node k _ v c) = node k t v c

-- Every pair with this key.
tag_values : String → String → Yamls → Yamls
unfolding with_tag
tag_values key t (cons k (cons v rest)) =
    if value_of k == key
    then cons k (cons (with_tag t v) (tag_values key t rest))
    else cons k (cons v (tag_values key t rest))
tag_values key t rest = rest

unfoldable pub set_bool : Yaml → String → Bool → Yaml
unfolding set_scalar tag_values
set_bool n key value =
    let set = set_scalar n key (if value then "true" else "false") in
    with_content set (tag_values key "!!bool" (content set))

unfoldable pub ensure_mgmt_skipped : Yaml → Yaml
unfolding ensure_mapping set_bool
ensure_mgmt_skipped root =
    ensure_mapping root "mgmt" (λ mgmt. set_bool mgmt "skip-when-unused" true)

unfoldable pub append_texts : List String → Yamls → Yamls
unfolding append_all
append_texts [] c = c
append_texts (s ∷ ss) c = append_texts ss (append_all c (cons (text s) nil))

-- The one mapping that a document holds.
unfoldable pub mapping_root : Yaml → Option Yaml
mapping_root (node document t v (cons root nil)) = if is_mapping root then some root else none
mapping_root _ = none
