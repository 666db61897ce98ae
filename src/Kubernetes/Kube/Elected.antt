-- ===== src/Kubernetes/Kube/Elected.antt =====
-- Which control plane is asked: the first that answers the authenticated probe, and only that one.
use labcontainers.Prelude.{
  String, ◌≡◌, refl, ap, ◌⊎◌, inl, inr, Option, none, some, List, [], ◌∷◌, ◌++◌, Result, ok, err,
}
use labcontainers.Prelude.FilePath.{◌⧺◌}
use labcontainers.Actions.{continue, fail, pure, try, ◌>>=◌}
use labcontainers.Rig.{Op, exec_op, Reply, History, Outside, Fault, unready, Cmd, perform, exec}
use labcontainers.Rig.Rules.{did}
use labcontainers.Kubernetes.Kube.{
  Client, Names, kubectl_args, url, probe, chosen, first_ready, server, run,
}

abbrev outcome : String → Option String → Result Fault String
outcome output none = ok output
outcome output (some e) = err (Fault.command e)

module _ (n : Names) (c : Client) where
  abbrev pub probe_op : String → Op
  probe_op addr = exec_op (
      kubectl_args c
        (("--server=" ⧺ url n c addr) ∷ "--request-timeout=2s" ∷ "get" ∷ "--raw" ∷ "/readyz" ∷ []))

  -- The probes of these control planes failed, one after the other, and nothing else happened.
  abbrev pub Refused : List String → History → History → Type 0
  Refused [] h v = v ≡ h
  Refused (addr ∷ rest) h v =
      (cause : String) × (r : Reply) × (r.error ≡ some cause)
      × Refused rest (record { node = c.bastion; op = probe_op addr; reply = r } ∷ h) v

  -- The first of these control planes that answered, after the others refused.
  abbrev pub Elected : List String → String → History → History → Type 0
  Elected addrs s h v =
      (before after : List String) × (addr output : String) × (w : History) × (addrs
        ≡ before ++ addr ∷ after)
      × (s ≡ url n c addr)
      × Refused before h w
      × (v ≡ did c.bastion (probe_op addr) output ∷ w)

  abbrev pub Found : List String → Result Fault String → History → History → Type 0
  Found addrs (ok s) h v = Elected addrs s h v
  Found addrs (err e) h v = (e ≡ unready) × Refused addrs h v

  Found-more :
      (addr : String) (addrs : List String) (r : Result Fault String) (x : Reply) (h v : History)
      (cause : String)
      → x.error ≡ some cause
      → Found addrs r (record { node = c.bastion; op = probe_op addr; reply = x } ∷ h) v
      → Found (addr ∷ addrs) r h v
  Found-more addr addrs (ok s) x h v cause failed
        (before, after, a, out, w, split, same, refused, last) =
      (
        addr ∷ before,
        after,
        a,
        out,
        w,
        ap (λ as'. addr ∷ as') split,
        same,
        (cause, x, failed, refused),
        last,
      )
  Found-more addr addrs (err e) x h v cause failed (same, refused) =
      (same, (cause, x, failed, refused))

  module _ (o : Outside) where
    first_ready-Found :
        (addrs : List String) (h : History)
        → Found addrs (first_ready o n c addrs h).0 h (first_ready o n c addrs h).1
    unfolding first_ready probe exec perform try pure fail chosen ◌>>=◌
    first_ready-Found [] h = (refl, refl)
    first_ready-Found (addr ∷ addrs) h =
        go (o.answers h c.bastion (probe_op addr)) (o.answers h c.bastion (probe_op addr)).error
          refl (λ v. first_ready-Found addrs v)
      where
        go :
            (x : Reply) (failed : Option String)
            → x.error ≡ failed
            → ((v : History)
                → Found addrs (first_ready o n c addrs v).0 v (first_ready o n c addrs v).1)
            → (let v = record { node = c.bastion; op = probe_op addr; reply = x } ∷ h in
                let r = outcome x.output failed in
                let end = chosen o n c (url n c addr) (first_ready o n c addrs) r v in
                Found (addr ∷ addrs) end.0 h end.1)
        go x none e again = (
          [],
          addrs,
          addr,
          x.output,
          h,
          refl,
          refl,
          refl,
          ap
              (λ f.
                record {
                  node = c.bastion;
                  op = probe_op addr;
                  reply = record { output = x.output; error = f };
                }
                ∷ h)
              e,
        )
        go x (some cause) e again =
            let v = record { node = c.bastion; op = probe_op addr; reply = x } ∷ h in
            Found-more addr addrs (first_ready o n c addrs v).0 x h (first_ready o n c addrs v).1
              cause e (again v)

    server-Found : (h : History) → Found c.control_planes (server o n c h).0 h (server o n c h).1
    unfolding server
    server-Found h = first_ready-Found c.control_planes h

    -- What goes on with the server that was found.
    served :
        {A : Type 0} (f : String → Cmd A) (h : History)
        → (((server o n c >>= f) h).0 ≡ err unready)
            × Refused c.control_planes h ((server o n c >>= f) h).1
          ⊎ ((s : String) × (v : History) × Elected c.control_planes s h v
              × ((server o n c >>= f) h ≡ f s v))
    unfolding ◌>>=◌
    served f h = go (server o n c h).0 (server o n c h).1 (server-Found h)
      where
        go :
            (r : Result Fault String) (v : History)
            → Found c.control_planes r h v
            → ((continue r f v).0 ≡ err unready) × Refused c.control_planes h (continue r f v).1
              ⊎ ((s : String) × (w : History) × Elected c.control_planes s h w
                  × (continue r f v ≡ f s w))
        go (ok s) v found = inr (s, v, found, refl)
        go (err e) v (same, refused) = inl (ap err same, refused)

-- Run asks for the probe of one control plane after the other. Either each of them refuses, and Run
-- fails with nothing else done; or one answers after those before it have refused, and then Run is one
-- kubectl command against that one, with its output or its error.
pub run-Elected :
    (o : Outside) (n : Names) (c : Client) (args : List String) (h : History)
    → ((run o n c args h).0 ≡ err unready) × Refused n c c.control_planes h (run o n c args h).1
      ⊎ ((s : String) × (v : History) × Elected n c c.control_planes s h v
          × (run o n c args h ≡ exec o c.bastion (kubectl_args c (("--server=" ⧺ s) ∷ args)) v))
unfolding run
run-Elected o n c args h =
    served n c o (λ s. exec o c.bastion (kubectl_args c (("--server=" ⧺ s) ∷ args))) h
