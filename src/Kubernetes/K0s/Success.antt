-- ===== src/Kubernetes/K0s/Success.antt =====
-- A site that is built: the whole order of what was done.
use mathlib.Core.List.{}
use labcontainers.Prelude.{◌≡◌, true, List, [], ◌∷◌}
use labcontainers.Rig.{History}
use labcontainers.Rig.Rules.{}
use labcontainers.Rig.Waiting.{}
use labcontainers.Kubernetes.K0s.{Member, Site, is_controller}
use labcontainers.Kubernetes.K0s.Effects.{}
use labcontainers.Kubernetes.K0s.Preparation.{Checked}
use labcontainers.Kubernetes.K0s.Order.{Serving, Started, Admitted}

abbrev pub Assembled : Member → List Member → History → History → Type 0
Assembled first rest h v =
    (started serving : History) × Started first.node h started
    × Serving first.node started serving
    × Admitted first.node rest serving v

abbrev pub Built : Site → List Member → History → History → Type 0
Built s [] h v = ⊥
Built s (first ∷ rest) h v =
    (is_controller first ≡ true)
    × ((checked : History) × Checked s s.members h checked × Assembled first rest checked v)
