-- ===== src/Server/Apply/Writes.antt =====
-- What reading and writing a topology's file leave of the files.

use labcontainers.Prelude.{
  String, ◌≡◌, refl, sym, ◌∙◌, ◌⊎◌, inl, inr, some, lookup, insert, lookup-insert_self, Result, ok,
  err, arith,
}
use labcontainers.Spec.Native.{Bytes}
use labcontainers.Actions.Rules.{Post, bind-Post}
use labcontainers.World.{World, Code, Act, ask, os, answer, require, modify, ◌>>=◌, ◌>>◌}
use labcontainers.Server.Bootstrap.{read_file}
use labcontainers.Server.Apply.{write_topology}

os-files : (w : World) → (os w).1.files ≡ w.files
unfolding os ask require ◌>>=◌
os-files w = ground arith

module _ (path : String) where
  pub read_file-quiet :
      (w : World) → ((read_file path w).1.files ≡ w.files) × ((read_file path w).1.calls ≡ w.calls)
  unfolding read_file os ask require answer ◌>>=◌
  read_file-quiet w = ground arith

  pub read_file-env : (w : World) → (read_file path w).1.env ≡ w.env
  unfolding read_file os ask require answer ◌>>=◌
  read_file-env w = ground arith

  module _ (content : Bytes) where
    pub write_topology-env : (w : World) → (write_topology path content w).1.env ≡ w.env
    unfolding write_topology os ask require ◌>>=◌
    write_topology-env w = ground arith

    pub write_topology-calls : (w : World) → (write_topology path content w).1.calls ≡ w.calls
    unfolding write_topology os ask require ◌>>=◌
    write_topology-calls w = ground arith

    -- The file is renamed into place as a whole, or the files are as they were.
    abbrev pub Written : World → Result Code (Unit {0}) → World → Type 0
    Written w r v =
        ((r ≡ ok tt) × (lookup path v.files ≡ some content))
        ⊎ ((c : Code) × (r ≡ err c) × (v.files ≡ w.files))

    after_os :
        (w : World) (k : Act (Unit {0}))
        → ((x : World) → x.files ≡ w.files → Post k x (Written w))
        → (x : World) → x.files ≡ w.files
        → Post (os >> k) x (Written w)
    after_os w k next x same =
        bind-Post (Written w) os (λ _. k) x (λ _ _. next (os x).1 (os-files x ∙ same))
          (λ c _. inr (c, refl, os-files x ∙ same))

    pub write_topology-Written : (w : World) → Post (write_topology path content) w (Written w)
    unfolding write_topology
    write_topology-Written w =
        let place : Act (Unit {0}) =
          modify (λ v. record v { files = insert path content v.files }) in
        let step4 =
          after_os w place (λ x same. inl (refl, lookup-insert_self path content x.files)) in
        let step3 = after_os w (os >> place) step4 in
        let step2 = after_os w (os >> (os >> place)) step3 in
        after_os w (os >> (os >> (os >> place))) step2 w refl

  pub written :
      (content : Bytes) (w : World)
      → (let (r, v) = write_topology path content w in
          Written content w r v → r ≡ ok tt → lookup path v.files ≡ some content)
  written content w (inl (done, there)) e = there
  written content w (inr (c, failed, same)) e = let bad = sym failed ∙ e in cc

  pub unwritten :
      (content : Bytes) (w : World)
      → (let (r, v) = write_topology path content w in
          Written content w r v → (c : Code) → r ≡ err c → v.files ≡ w.files)
  unwritten content w (inl (done, there)) c e = let bad = sym done ∙ e in cc
  unwritten content w (inr (d, failed, same)) c e = same

  pub restored :
      (before : Bytes) (x : World)
      → (let (r, v) = write_topology path before x in
          Written before x r v
          → (lookup path v.files ≡ some before)
            ⊎ ((d : Code) × ((write_topology path before x).0 ≡ err d)))
  restored before x (inl (done, there)) = inl there
  restored before x (inr (c, failed, same)) = inr (c, failed)
