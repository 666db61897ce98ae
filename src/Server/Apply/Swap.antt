-- ===== src/Server/Apply/Swap.antt =====
-- What ApplyTopology leaves of the topology's file, and when it deploys.

use labcontainers.Prelude.{
  ◌≡◌, refl, sym, ap, ◌∙◌, ◌⊎◌, inl, inr, some, ◌++◌, Map, lookup, Result, ok, err,
}
use labcontainers.Session.{Record, Node}
use labcontainers.Session.Store.{save}
use labcontainers.Spec.Native.{Bytes, ApplyResult}
use labcontainers.Spec.Prepare.{Prepared}
use labcontainers.Actions.Rules.{Post, bind-Post, recode-ok, recode-err, bind-run}
use labcontainers.World.{World, Code, internal, status, try, ignore, pure, fail, ◌>>=◌, ◌>>◌}
use labcontainers.Server.Bootstrap.{read_file}
use labcontainers.Server.Records.{random_id}
use labcontainers.Server.Apply.Calm.{Undeployed, review-Calm, record_review-Keeps}
use labcontainers.Server.Apply.{
  write_topology, compare_plan, record_review, write_evidence, review, converge, after_review,
  swap_topology, reconciling,
}
use labcontainers.Server.Apply.Agreed.{Agreed, ok-same, compare_plan-Agreed}
use labcontainers.Server.Apply.Writes.{
  read_file-quiet, read_file-env, write_topology-env, write_topology-calls, write_topology-Written,
  written, unwritten, restored,
}

-- Nothing was changed: the topology could not be read or written.
abbrev pub Untouched : World → Result Code Record → World → Type 0
Untouched w r v = (c : Code) × (r ≡ err c) × (v.files ≡ w.files) × (v.calls ≡ w.calls)

-- The world in which the desired topology has just been written.
abbrev pub after_write : Record → Prepared → World → World
after_write r p w = (write_topology r.topology_path p.yaml (read_file r.topology_path w).1).1

-- The review of the written topology failed, in the world `x`, and the backend was asked to validate and
-- to plan at most. The bytes that were read before were then written, and the topology has them, unless
-- this failed.
abbrev pub Restored :
    Record → Prepared → Map Node → ApplyResult → Bytes → World → Result Code Record → World → Type 0
Restored r p nodes approved before w res v =
    (c : Code) × (x : World) × (res ≡ err c)
    × (review r p nodes approved before (after_write r p w) ≡ (err c, x))
    × Undeployed w v
    × (v ≡ (write_topology r.topology_path before x).1)
    × ((lookup r.topology_path v.files ≡ some before)
        ⊎ ((d : Code) × ((write_topology r.topology_path before x).0 ≡ err d)))

-- The topology was written, a fresh plan was the approved one, and the runtime was converged from `x`,
-- the world in which the review of that topology has ended.
abbrev pub Converged :
    Record → Prepared → Map Node → ApplyResult → World → Result Code Record → World → Type 0
Converged r p nodes approved w res v =
    (before : Bytes) × (y x : World) × ((read_file r.topology_path w).0 ≡ ok before)
    × (y ≡ after_write r p w)
    × (lookup r.topology_path y.files ≡ some p.yaml)
    × (y.env ≡ w.env)
    × (y.calls ≡ w.calls)
    × (review r p nodes approved before y ≡ (ok (reconciling r nodes), x))
    × Agreed r approved y x
    × ((res, v) ≡ converge (reconciling r nodes) p nodes x)

module _ (r : Record) (p : Prepared) (nodes : Map Node) (approved : ApplyResult) where
  abbrev pub Swapped : World → Result Code Record → World → Type 0
  Swapped w res v =
      Untouched w res v
      ⊎ ((before : Bytes) × ((read_file r.topology_path w).0 ≡ ok before)
          × Restored r p nodes approved before w res v)
      ⊎ Converged r p nodes approved w res v

  record_review-ok :
      (before raw : Bytes) (x : World) {r' : Record}
      → (record_review r p nodes before raw x).0 ≡ ok r'
      → reconciling r nodes ≡ r'
  unfolding record_review pure
  record_review-ok before raw x e =
      let saved = status internal (save (reconciling r nodes)) in
      let (operation, done, step) = bind-run (status internal random_id) _ x e in
      let v = (status internal random_id x).1 in
      let evidence = status internal (write_evidence r operation before p.yaml raw) in
      let (u, done', step') =
        bind-run evidence (λ _. saved >>= λ _. pure (reconciling r nodes)) v
          (sym (ap (λ z. z.0) step) ∙ e) in
      let (u', done'', step'') =
        bind-run saved (λ _. pure (reconciling r nodes)) (evidence v).1
          (sym (ap (λ z. z.0) (step ∙ step')) ∙ e) in
      ok-same (sym (ap (λ z. z.0) (step ∙ step' ∙ step'')) ∙ e)

  review-Agreed :
      (before : Bytes) (y : World) {r' : Record}
      → (review r p nodes approved before y).0 ≡ ok r'
      → Agreed r approved y (review r p nodes approved before y).1 × (reconciling r nodes ≡ r')
  unfolding review record_review pure
  review-Agreed before y e =
      let (raw, done, step) =
        bind-run (compare_plan r approved) (record_review r p nodes before) y e in
      let x = (compare_plan r approved y).1 in
      let (current, known, same, calls) = compare_plan-Agreed r approved y done in
      (
        (
          current,
          known,
          same,
          ap (λ z. z.1.calls) step ∙ record_review-Keeps r p nodes before raw x ∙ calls,
        ),
        record_review-ok before raw x (sym (ap (λ z. z.0) step) ∙ e),
      )

  -- The end of the review, from the world `y` in which the topology was written.
  after_review-Swapped :
      (before : Bytes) (w y : World)
      → (read_file r.topology_path w).0 ≡ ok before
      → y ≡ after_write r p w
      → lookup r.topology_path y.files ≡ some p.yaml
      → y.calls ≡ w.calls
      → (reviewed : Result Code Record) → (review r p nodes approved before y).0 ≡ reviewed
      → Post
          (after_review r p nodes before reviewed)
          (review r p nodes approved before y).1
          (Swapped w)
  unfolding after_review ignore fail ◌>>=◌
  after_review-Swapped before w y was here written quiet (ok r') e =
      let x = (review r p nodes approved before y).1 in
      let (agreed, same) = review-Agreed before y e in
      let v = (read_file r.topology_path w).1 in
      inr (
        inr (
          before,
          y,
          x,
          was,
          here,
          written,
          ap (λ z. z.env) here
              ∙ write_topology-env r.topology_path p.yaml v
              ∙ read_file-env r.topology_path w,
          quiet,
          ap (λ q. (q, x)) (e ∙ ap ok (sym same)),
          agreed,
          ap (λ q. converge q p nodes x) (sym same),
        ))
  after_review-Swapped before w y was here written quiet (err c) e =
      let x = (review r p nodes approved before y).1 in
      let v = (write_topology r.topology_path before x).1 in
      let (new, grown, asks) = review-Calm r p nodes approved before y in
      inr (
        inl (
          before,
          was,
          (
            c,
            x,
            refl,
            ap (λ y. review r p nodes approved before y) (sym here) ∙ ap (λ q. (q, x)) e,
            (
              new,
              write_topology-calls r.topology_path before x ∙ grown ∙ ap (λ cs. new ++ cs) quiet,
              asks,
            ),
            refl,
            restored r.topology_path before x (write_topology-Written r.topology_path before x),
          ),
        ))

  written-Swapped :
      (before : Bytes) (w v : World)
      → (read_file r.topology_path w).0 ≡ ok before
      → v ≡ (read_file r.topology_path w).1
      → v.files ≡ w.files
      → v.calls ≡ w.calls
      → Post
          (do
            status internal (write_topology r.topology_path p.yaml)
            reviewed ← try (review r p nodes approved before)
            after_review r p nodes before reviewed)
          v
          (Swapped w)
  unfolding status try
  written-Swapped before w v was here same quiet =
      let path = r.topology_path in
      let files = write_topology-Written path p.yaml v in
      let calls = write_topology-calls path p.yaml v in
      let y = (write_topology path p.yaml v).1 in
      bind-Post (Swapped w) (status internal (write_topology path p.yaml)) _ v
        (λ _ e.
          bind-Post (Swapped w) (try (review r p nodes approved before))
            (after_review r p nodes before) y
            (λ reviewed e'.
              after_review-Swapped before w y was (ap (λ z. (write_topology path p.yaml z).1) here)
                (written path p.yaml v files
                  (recode-ok internal (write_topology path p.yaml v).0 e))
                (calls ∙ quiet) reviewed (ok-same e'))
            (λ c e'. cc))
        (λ c e.
          let (d, failed) = recode-err internal (write_topology path p.yaml v).0 e in
          inl (c, refl, unwritten path p.yaml v files d failed ∙ same, calls ∙ quiet))

-- The second part of ApplyTopology could not read or write the topology, and changed nothing; or
-- its review failed, and it has asked the backend to validate and to plan at most, and the
-- topology has the bytes that it had before, unless their writing failed; or the topology was
-- written, and its review, in the world in which this was done, has validated it and asked for a
-- fresh plan, which decodes to the approved one, and only then was the runtime converged.
pub swap_topology-Swapped :
    (r : Record) (p : Prepared) (nodes : Map Node) (approved : ApplyResult) (w : World)
    → Swapped r p nodes approved w
        (swap_topology r p nodes approved w).0
        (swap_topology r p nodes approved w).1
unfolding swap_topology status
swap_topology-Swapped r p nodes approved w =
    let path = r.topology_path in
    let (files, calls) = read_file-quiet path w in
    let v = (read_file path w).1 in
    bind-Post (Swapped r p nodes approved w) (status internal (read_file path)) _ w
      (λ before e.
        written-Swapped r p nodes approved before w v (recode-ok internal (read_file path w).0 e)
          refl files calls)
      (λ c e. inl (c, refl, files, calls))
