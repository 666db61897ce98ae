-- ===== src/Client/Forgotten.antt =====
-- When the reference to a deployment is removed.
use mathlib.Core.List.{append_assoc}
use labcontainers.Prelude.{
  suc, String, ◌≡◌, refl, sym, ap, ◌∙◌, Bool, true, false, not, some, List, [], ◌∷◌, ◌++◌, Map,
  lookup, delete, Result, ok, err, ◌==◌, arith,
}
use labcontainers.Actions.{pure, fail, try, finally, require, modify, ◌>>=◌, ◌>>◌}
use labcontainers.Actions.Rules.{Post, bind-Post, bind-run, require-run}
use labcontainers.Actions.Keeps.{Keeps, bind-Keeps, require-Keeps}
use labcontainers.Client.{
  Rpc, destroy_rpc, PersistentRef, Saved, reference, Harness, Problem, no_socket, Step, attempt,
  rpc, connect, resume, release, destroy, close, read_persistent_ref, PersistentOptions,
  open_persistent, or_close, destroy_and_forget, destroy_persistent,
}
use labcontainers.Client.Steps.{close-Quiet}

abbrev files_of : Harness → Map Saved
files_of h = h.files

-- The daemon confirmed that it destroyed the session of the reference, and the reference was removed.
abbrev pub Forgotten : PersistentOptions → Harness → Result Problem (Unit {0}) → Harness → Type 0
Forgotten opts h (ok _) v =
    (v.files ≡ delete opts.ref_path h.files)
    × ((id socket : String) × (later earlier : List (Rpc × Bool)) × (lookup opts.ref_path h.files
          ≡ some (reference (record { id = id; socket = socket })))
        × (v.rpcs ≡ later ++ (destroy_rpc id false, true) ∷ earlier))
Forgotten opts h (err e) v = v.files ≡ h.files

attempt-Keeps : Keeps files_of attempt
unfolding attempt
attempt-Keeps h = require-Keeps files_of _ _ (record h { asked = suc h.asked })

connect-Keeps : Keeps files_of connect
unfolding connect attempt require pure fail ◌>>=◌
connect-Keeps h = ground arith

resume-Keeps : (id : String) → Keeps files_of (resume id)
unfolding resume rpc require pure fail ◌>>=◌
resume-Keeps id h = ground arith

destroy-ok :
    (id : String) (h : Harness)
    → (destroy id h).0 ≡ ok tt
    → (let v = (destroy id h).1 in
        (v.files ≡ h.files) × (v.rpcs ≡ (destroy_rpc id false, true) ∷ h.rpcs))
unfolding destroy rpc release require pure fail ◌>>=◌
destroy-ok id h e = ground arith

destroy-Keeps : (id : String) → Keeps files_of (destroy id)
unfolding destroy rpc release require pure fail ◌>>=◌
destroy-Keeps id h = ground arith

attempt-calls : (h : Harness) → (attempt h).1.rpcs ≡ h.rpcs
unfolding attempt require pure fail
attempt-calls h = ground arith

forget-Forgotten :
    (opts : PersistentOptions) (id socket : String) (h : Harness)
    → lookup opts.ref_path h.files ≡ some (reference (record { id = id; socket = socket }))
    → Post (destroy_and_forget opts id) h (Forgotten opts h)
unfolding destroy_and_forget
forget-Forgotten opts id socket h there =
    let forget : Step (Unit {0}) =
      modify (λ x. record x { files = delete opts.ref_path x.files }) in
    let v = (destroy id h).1 in
    bind-Post (Forgotten opts h) (destroy id) (λ _. attempt >> forget) h
      (λ _ e.
        let (files, rpcs) = destroy-ok id h e in
        bind-Post (Forgotten opts h) attempt (λ _. forget) v
          (λ _ _. (
            ap (λ f. delete opts.ref_path f) (attempt-Keeps v ∙ files),
            (id, socket, [], h.rpcs, there, attempt-calls v ∙ rpcs),
          ))
          (λ _ _. attempt-Keeps v ∙ files))
      (λ _ _. destroy-Keeps id h)

close-Forgotten :
    (opts : PersistentOptions) (h x : Harness)
    → x.files ≡ h.files
    → (r : Result Problem (Unit {0})) (v : Harness) → Forgotten opts x r v
    → Forgotten opts h r (close v).1
close-Forgotten opts h x same (ok u) v (files, (id, socket, later, earlier, there, rpcs)) =
    let (same', (more, grown)) = close-Quiet v in
    (
      same' ∙ files ∙ ap (λ f. delete opts.ref_path f) same,
      (
        id,
        socket,
        more ++ later,
        earlier,
        ap (λ f. lookup opts.ref_path f) (sym same) ∙ there,
        grown
            ∙ ap (λ l. more ++ l) rpcs
            ∙ sym (append_assoc more later ((destroy_rpc id false, true) ∷ earlier)),
      ),
    )
close-Forgotten opts h x same (err e) v files =
    let (same', more) = close-Quiet v in same' ∙ files ∙ same

resumed-Keeps : (id : String) (r : Result Problem (Unit {0})) → Keeps files_of (or_close id r)
unfolding or_close pure fail
resumed-Keeps id (ok u) = λ h. refl
resumed-Keeps id (err e) =
    bind-Keeps files_of close (λ _. fail e) (λ h. (close-Quiet h).0) (λ _ h. refl)

read-Keeps : (path : String) → Keeps files_of (read_persistent_ref path)
unfolding read_persistent_ref attempt require pure fail ◌>>=◌
read-Keeps path h = ground arith

open_persistent-Keeps : (opts : PersistentOptions) → Keeps files_of (open_persistent opts)
unfolding open_persistent try
open_persistent-Keeps opts =
    bind-Keeps files_of (read_persistent_ref opts.ref_path) _ (read-Keeps opts.ref_path) (λ ref.
      bind-Keeps files_of (require (not (ref.socket == "")) no_socket) _
        (require-Keeps files_of (not (ref.socket == "")) no_socket)
        (λ _. bind-Keeps files_of connect _ connect-Keeps (λ socket.
          bind-Keeps files_of (try (resume ref.id)) (or_close ref.id) (resume-Keeps ref.id)
            (resumed-Keeps ref.id))))

read-ok :
    (path : String) (h : Harness) {ref : PersistentRef}
    → (read_persistent_ref path h).0 ≡ ok ref
    → lookup path h.files ≡ some (reference ref)
unfolding read_persistent_ref attempt require pure fail ◌>>=◌
read-ok path h e = ground arith

or_close-ok :
    (id : String) (r : Result Problem (Unit {0})) (h : Harness) {id' : String}
    → (or_close id r h).0 ≡ ok id'
    → id ≡ id'
unfolding or_close pure fail
or_close-ok id (ok u) h e = cc
or_close-ok id (err c) h {id'} e =
    let (u, done, step) = bind-run close (λ _. fail {A = String} c) h e in
    let bad : Path (Result Problem String) (err c) (ok id') = sym (ap (λ x. x.0) step) ∙ e in cc

open-ok :
    (opts : PersistentOptions) (h : Harness) {id : String}
    → (open_persistent opts h).0 ≡ ok id
    → (socket : String) × (lookup opts.ref_path h.files
        ≡ some (reference (record { id = id; socket = socket })))
unfolding open_persistent try
open-ok opts h e =
    let close_after : PersistentRef → Step String =
      λ ref. try (resume ref.id) >>= or_close ref.id in
    let dial : PersistentRef → Step String = λ ref. connect >>= λ _. close_after ref in
    let (ref, found, step1) =
      bind-run (read_persistent_ref opts.ref_path)
        (λ ref. require (not (ref.socket == "")) no_socket >> dial ref) h e in
    let v = (read_persistent_ref opts.ref_path h).1 in
    let (named, step2) =
      require-run (not (ref.socket == "")) no_socket (dial ref) v (sym (ap (λ x. x.0) step1) ∙ e) in
    let two = step1 ∙ step2 in
    let (socket, dialed, step3) =
      bind-run connect (λ _. close_after ref) v (sym (ap (λ x. x.0) two) ∙ e) in
    let three = two ∙ step3 in
    let (r, resumed, step4) =
      bind-run (try (resume ref.id)) (or_close ref.id) (connect v).1
        (sym (ap (λ x. x.0) three) ∙ e) in
    let same =
      or_close-ok ref.id r (try (resume ref.id) (connect v).1).1
        (sym (ap (λ x. x.0) (three ∙ step4)) ∙ e) in
    (
      ref.socket,
      read-ok opts.ref_path h found
          ∙ ap (λ i. some (reference (record { id = i; socket = ref.socket }))) same,
    )

-- However DestroyPersistent ends: it removes the reference only after the daemon has confirmed that it
-- destroyed the session that it names; and where it fails, the references are as they were.
pub destroy_persistent-Forgotten :
    (opts : PersistentOptions) (h : Harness)
    → Forgotten opts h (destroy_persistent opts h).0 (destroy_persistent opts h).1
unfolding destroy_persistent finally
destroy_persistent-Forgotten opts h =
    bind-Post (Forgotten opts h) (open_persistent opts)
      (λ id. finally (destroy_and_forget opts id) close) h
      (λ id e.
        let v = (open_persistent opts h).1 in
        let (socket, there) = open-ok opts h e in
        let same = open_persistent-Keeps opts h in
        let end = destroy_and_forget opts id v in
        close-Forgotten opts h v same end.0 end.1
          (forget-Forgotten opts id socket v (ap (λ f. lookup opts.ref_path f) same ∙ there)))
      (λ c _. open_persistent-Keeps opts h)
