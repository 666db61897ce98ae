-- ===== src/Provision/Interfaces/Unique.antt =====
-- What the names of interfaces that are returned are the names of.
use std.Path.{subst}
use labcontainers.Prelude.{
  String, ◌≡◌, refl, sym, ap, ◌∙◌, Bool, true, false, Option, none, some, List, [], ◌∷◌, ◌++◌, ok,
  ◌==◌, All, if◌then◌else◌, arith,
}
use labcontainers.Actions.{pure, fail, demand, ◌>>=◌}
use labcontainers.Actions.Rules.{require-run, demand-run, bind-run}
use labcontainers.Rig.{History, Outside, Fault, invalid, mismatch, Cmd, pipe, pipe_op}
use labcontainers.Rig.Rules.{did, pipe-ok}
use labcontainers.Provision.Interfaces.{
  Link, Codec, is_listed, is_given, ethernet, wanted, bears, find_links, only_named, name_all,
  names_in, interface_names,
}
use labcontainers.Provision.Interfaces.Counts.{some-same, find-Alone, named-one}

module _ (c : Codec) where
  -- Exactly one link bears the address, and it has this name.
  abbrev pub Unique : List Link → String → String → Type 0
  Unique ls mac name =
      (before after : List Link) × (l : Link) × (ls ≡ before ++ l ∷ after)
      × All (λ x. bears c mac x ≡ false) before
      × (bears c mac l ≡ true)
      × All (λ x. bears c mac x ≡ false) after
      × (l.name ≡ name)
      × ((name == "") ≡ false)

  abbrev pub Named : List Link → List String → List String → Type 0
  Named ls [] [] = Unit
  Named ls [] (n ∷ ns) = ⊥
  Named ls (m ∷ ms) [] = ⊥
  Named ls (m ∷ ms) (n ∷ ns) = Unique ls m n × Named ls ms ns

  -- Each address is that of an Ethernet interface, and is not among those before it.
  abbrev pub Canonical : List String → List String → List String → Type 0
  Canonical seen [] [] = Unit
  Canonical seen [] (m ∷ ms) = ⊥
  Canonical seen (v ∷ vs) [] = ⊥
  Canonical seen (v ∷ vs) (m ∷ ms) =
      (ethernet (c.parse_mac v) ≡ some m) × (is_listed m seen ≡ false) × Canonical (m ∷ seen) vs ms

  wanted-Canonical :
      (seen values macs : List String)
      → wanted c seen values ≡ some macs
      → Canonical seen values macs
  unfolding wanted
  wanted-Canonical seen [] [] e = tt
  wanted-Canonical seen [] (m ∷ ms) e = cc
  wanted-Canonical seen (v ∷ vs) macs e =
      first (ethernet (c.parse_mac v)) refl e (λ s ms e'. wanted-Canonical s vs ms e')
    where
      with_rest : String → Option (List String)
      with_rest m = elim (wanted c (m ∷ seen) vs) [ none ↦ none | some ms ↦ some (m ∷ ms) ]

      first :
          (o : Option String)
          → ethernet (c.parse_mac v) ≡ o
          → elim o [ none ↦ none | some m ↦ if is_listed m seen then none else with_rest m ]
            ≡ some macs
          → ((s ms : List String) → wanted c s vs ≡ some ms → Canonical s vs ms)
          → Canonical seen (v ∷ vs) macs
      first none known e' again = cc
      first (some m) known e' again = listed (is_listed m seen) refl e'
        where
          listed :
              (b : Bool)
              → is_listed m seen ≡ b
              → (if b then none else with_rest m) ≡ some macs
              → Canonical seen (v ∷ vs) macs
          listed true new' e'' = cc
          listed false new' e'' = others (wanted c (m ∷ seen) vs) refl e''
            where
              others :
                  (r : Option (List String))
                  → wanted c (m ∷ seen) vs ≡ r
                  → elim r [ none ↦ none | some ms ↦ some (m ∷ ms) ] ≡ some macs
                  → Canonical seen (v ∷ vs) macs
              others none e3 e4 = cc
              others (some ms) e3 e4 =
                  subst (Canonical seen (v ∷ vs)) (some-same e4)
                    (known, new', again (m ∷ seen) ms e3)

  name_all-Named :
      (ls : List Link) (macs names : List String)
      → name_all c ls macs ≡ some names
      → Named ls macs names
  unfolding name_all
  name_all-Named ls [] [] e = tt
  name_all-Named ls [] (n ∷ ns) e = cc
  name_all-Named ls (m ∷ ms) names e =
      go (only_named (find_links c m ls 0 "")) (name_all c ls ms) refl refl e
        (λ ns e'. name_all-Named ls ms ns e')
    where
      go :
          (o : Option String) (r : Option (List String))
          → only_named (find_links c m ls 0 "") ≡ o
          → name_all c ls ms ≡ r
          → elim o [ none ↦ none | some n ↦ elim r [ none ↦ none | some ns ↦ some (n ∷ ns) ] ]
            ≡ some names
          → ((ns : List String) → name_all c ls ms ≡ some ns → Named ls ms ns)
          → Named ls (m ∷ ms) names
      go none r o-is r-is e' again = cc
      go (some n) none o-is r-is e' again = cc
      go (some n) (some ns) o-is r-is e' again =
          let found = find_links c m ls 0 "" in
          let (one, given) = named-one c found.0 found.1 o-is in
          let (before, after, l, split, none', here, none'', same) = find-Alone c m ls "" one in
          subst (Named ls (m ∷ ms)) (some-same e')
            ((before, after, l, split, none', here, none'', same, given), again ns r-is)

names_in-links :
    (c : Codec) (out : String) (want : List String) {names : List String}
    → names_in c out want ≡ some names
    → (ls : List Link) × (c.links out ≡ some ls) × (name_all c ls want ≡ some names)
unfolding names_in
names_in-links c out want e = go (c.links out) e
  where
    go :
        (o : Option (List Link)) {names : List String}
        → elim o [ none ↦ none | some ls ↦ name_all c ls want ] ≡ some names
        → (ls : List Link) × (o ≡ some ls) × (name_all c ls want ≡ some names)
    go none e' = cc
    go (some ls) e' = (ls, refl, e')

demand-ok :
    {A : Type 0} (o : Option A) (f : Fault) (h : History) {a : A}
    → (demand o f h).0 ≡ ok a
    → (o ≡ some a) × ((demand o f h).1 ≡ h)
unfolding demand pure fail
demand-ok none f h e = cc
demand-ok (some b) f h e = (ground arith, refl)

-- Where InterfaceNames succeeds, the addresses that it was given are those of Ethernet interfaces and
-- all differ; it has asked the guest for its links and nothing else; and of the links that the guest
-- told of, exactly one bears each address, and the names, in the order of the addresses, are theirs and
-- not empty.
pub interface_names-Unique :
    (c : Codec) (o : Outside) (guest : String) (macs names : List String) (h : History)
    → (interface_names c o guest macs h).0 ≡ ok names
    → (want : List String) × (output : String) × (ls : List Link) × Canonical c [] macs want
      × (c.links output ≡ some ls)
      × Named c ls want names
      × ((interface_names c o guest macs h).1
          ≡ did guest (pipe_op "" ("ip" ∷ "-j" ∷ "link" ∷ "show" ∷ [])) output ∷ h)
unfolding interface_names
interface_names-Unique c o guest macs names h e =
    let argv = "ip" ∷ "-j" ∷ "link" ∷ "show" ∷ [] in
    let read : List String → Cmd (List String) =
      λ want. pipe o guest "" argv >>= λ out. demand (names_in c out want) mismatch in
    let ask : Cmd (List String) = demand (wanted c [] macs) invalid >>= read in
    let (given, step1) = require-run (is_given macs) invalid ask h e in
    let (want, known, step2) =
      demand-run (wanted c [] macs) invalid read h (sym (ap (λ r. r.0) step1) ∙ e) in
    let two = step1 ∙ step2 in
    let (out, done, step3) =
      bind-run (pipe o guest "" argv) (λ out. demand (names_in c out want) mismatch) h
        (sym (ap (λ r. r.0) two) ∙ e) in
    let v = (pipe o guest "" argv h).1 in
    let all = two ∙ step3 in
    let (named, same) = demand-ok (names_in c out want) mismatch v (sym (ap (λ r. r.0) all) ∙ e) in
    let (ls, links, named') = names_in-links c out want named in
    (
      want,
      out,
      ls,
      wanted-Canonical c [] macs want known,
      links,
      name_all-Named c ls want names named',
      ap (λ r. r.1) all ∙ same ∙ pipe-ok o guest "" argv h done,
    )
