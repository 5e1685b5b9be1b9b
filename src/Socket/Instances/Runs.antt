-- ===== src/Socket/Instances/Runs.antt =====
-- The two instances over time.
use Prim.{tt}
use open_vrrp.Prelude.{List, [], ◌∷◌, none, refl}
use open_vrrp.Address.{Family}
use open_vrrp.Containers.{set_contains}
use open_vrrp.Socket.Instances.{Answers, Instances, instance_of, cleanup}
use open_vrrp.Socket.Instances.Owned.{IsSound, IsHonest, instance_of-IsSound, cleanup-IsSound}

-- A call of instance, with what the system answers, or of cleanup.
pub data Operation : Type 0 where
  asks : Family → Answers → Operation
  cleans_up : Operation

abbrev pub perform : Operation → Instances → Instances
perform (asks family a) w = (instance_of family a w).1
perform cleans_up w = cleanup w

abbrev pub perform_all : List Operation → Instances → Instances
perform_all [] w = w
perform_all (op ∷ ops) w = perform_all ops (perform op w)

abbrev pub AreHonest : List Operation → Instances → Type 0
AreHonest [] w = Unit {0}
AreHonest (asks family a ∷ ops) w = IsHonest a w × AreHonest ops (perform (asks family a) w)
AreHonest (cleans_up ∷ ops) w = AreHonest ops (cleanup w)

-- Before the first call.
abbrev pub no_instances : Instances
no_instances = record { ipv4 = none; ipv6 = none; opened = []; watched = [] }

no_instances-IsSound : IsSound no_instances
unfolding set_contains
no_instances-IsSound = record { owned = λ fd. refl; apart = λ fd. refl; ready_4 = tt; ready_6 = tt }

perform_all-IsSound :
    (ops : List Operation) (w : Instances)
    → IsSound w
    → AreHonest ops w
    → IsSound (perform_all ops w)
perform_all-IsSound [] w h honest = h
perform_all-IsSound (asks family a ∷ ops) w h (p, honest) =
    perform_all-IsSound ops (instance_of family a w).1 (instance_of-IsSound family a w p h) honest
perform_all-IsSound (cleans_up ∷ ops) w h honest =
    perform_all-IsSound ops (cleanup w) (cleanup-IsSound w h) honest

-- After any calls of instance and cleanup, where the system gives descriptors that are not open and a
-- failed call of `socket` has an error: the open descriptors are those of the two instances, each of
-- which has its own, and an instance has no error and all options of its family, and its descriptor
-- was given to the main loop.
pub instances-IsSound :
    (ops : List Operation) → AreHonest ops no_instances → IsSound (perform_all ops no_instances)
instances-IsSound ops honest = perform_all-IsSound ops no_instances no_instances-IsSound honest
