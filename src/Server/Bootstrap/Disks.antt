-- ===== src/Server/Bootstrap/Disks.antt =====
-- The disks that `diskPlan` accepts for a node.
use labcontainers.Prelude.{
  ℕ, String, ◌≡◌, refl, ◌≤◌, ◌^◌, Bool, true, false, not, ◌||◌, Option, some, none, List, [], ◌∷◌,
  ◌++◌, All, if◌then◌else◌, ltb, nat_eq, ◌==◌, arith, eq_iff,
}
use labcontainers.Prelude.FilePath.{◌⧺◌, join}
use labcontainers.Session.{Disk}
use labcontainers.Server.Bootstrap.{DiskRequest, is_disk_name, has_name, plan_disks}

-- No name occurs twice.
abbrev pub Distinct : List Disk → Type 0
Distinct [] = Unit
Distinct (d ∷ ds) = (has_name d.name ds ≡ false) × Distinct ds

abbrev pub Fit : Disk → Type 0
Fit d = (is_disk_name d.name ≡ true) × (1 ≤ d.size_bytes) × (d.size_bytes ≤ 2 ^ 40)

neither : (a b : Bool) → (a || b) ≡ false → (a ≡ false) × (b ≡ false)
neither true b h = cc
neither false b h = (refl, h)

differ : (m n : String) → (m == n) ≡ false → (n == m) ≡ false
differ m n h = ground (arith, eq_iff m n, eq_iff n m)

opposite : (a : Bool) → not a ≡ false → a ≡ true
opposite true h = refl
opposite false h = cc

-- What two guards let through.
admitted :
    (a b : Bool) (rest : Option (List Disk)) {out : List Disk}
    → (if a then none else if b then none else rest) ≡ some out
    → (a ≡ false) × (b ≡ false) × (rest ≡ some out)
admitted true b rest h = cc
admitted false true rest h = cc
admitted false false rest h = (refl, refl, h)

in_bounds : (n : ℕ) → (nat_eq n 0 || ltb (2 ^ 40) n) ≡ false → (1 ≤ n) × (n ≤ 2 ^ 40)
in_bounds n h = (ground arith, ground arith)

has_name-snoc :
    (n : String) (ds : List Disk) (e : Disk)
    → has_name n ds ≡ false
    → (e.name == n) ≡ false
    → has_name n (ds ++ e ∷ []) ≡ false
has_name-snoc n [] e h other = rw other refl
has_name-snoc n (d ∷ ds) e h other = ground (arith, has_name-snoc n ds e)

Distinct-snoc :
    (ds : List Disk) (e : Disk) → Distinct ds → has_name e.name ds ≡ false → Distinct (ds ++ e ∷ [])
Distinct-snoc [] e h fresh = (refl, tt)
Distinct-snoc (d ∷ ds) e (h, hs) fresh =
    let (other, later) = neither (d.name == e.name) (has_name e.name ds) fresh in
    (has_name-snoc d.name ds e h (differ d.name e.name other), Distinct-snoc ds e hs later)

All-snoc : (ds : List Disk) (e : Disk) → All Fit ds → Fit e → All Fit (ds ++ e ∷ [])
All-snoc [] e h fit = (fit, tt)
All-snoc (d ∷ ds) e (h, hs) fit = (h, All-snoc ds e hs fit)

plan_disks-Fit :
    (dir : String) (before : List Disk) (ds : List DiskRequest) {out : List Disk}
    → All Fit before
    → Distinct before
    → plan_disks dir before ds ≡ some out
    → All Fit out × Distinct out
unfolding plan_disks
plan_disks-Fit dir before [] {out} fits distinct h =
    let same : before ≡ out = cc in rw (← same) (fits, distinct)
plan_disks-Fit dir before (d ∷ ds) fits distinct h =
    let disk : Disk = record {
      name = d.name;
      path = join dir (d.name ⧺ ".raw");
      size_bytes = d.size_bytes;
    } in
    let (named, sized, rest) =
      admitted (not (is_disk_name d.name) || has_name d.name before)
        (nat_eq d.size_bytes 0 || ltb (2 ^ 40) d.size_bytes)
        (plan_disks dir (before ++ disk ∷ []) ds) h in
    let (safe, fresh) = neither (not (is_disk_name d.name)) (has_name d.name before) named in
    let (least, most) = in_bounds d.size_bytes sized in
    plan_disks-Fit dir (before ++ disk ∷ []) ds
      (All-snoc before disk fits (opposite (is_disk_name d.name) safe, least, most))
      (Distinct-snoc before disk distinct fresh) rest

-- The disks that are planned for a node have safe names of which no two are the same, and each has
-- between one byte and a tebibyte.
pub plan_disks_bounds :
    (dir : String) (ds : List DiskRequest) {out : List Disk}
    → plan_disks dir [] ds ≡ some out
    → All Fit out × Distinct out
plan_disks_bounds dir ds h = plan_disks-Fit dir [] ds tt tt h
