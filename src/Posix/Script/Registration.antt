-- ===== src/Posix/Script/Registration.antt =====
-- The end of the `main` of a server that rpcgen has made: the service is offered over udp and tcp, and
-- svc_run is called.
use os_5sem.Prelude.{ℕ, ◌≡◌, refl, Bool, List, [], ◌∷◌, ◌&&◌, if◌then◌else◌, arith, Bool-cases}
use os_5sem.Posix.Semop.{Sems}
use os_5sem.Posix.Script.{Call, pmap_unset, svc_create, svc_register, svc_run, run, service}

abbrev pub registration : List Call
registration = pmap_unset ∷ svc_create ∷ svc_register ∷ svc_create ∷ svc_register ∷ svc_run ∷ []

-- The service is offered over udp if the first two calls succeed, and over tcp too if all four do;
-- in every case the exit status is 1.
pub registration_lem :
    (ok : ℕ → Bool) (found : Sems)
    → ((service ok found registration).0 ≡ 1)
      × ((service ok found registration).1.registered
          ≡ (if ok 1 && ok 2 then (if ok 3 && ok 4 then 2 else 1) else 0))
unfolding run service
registration_lem ok found = (
  refl,
  ground (arith, Bool-cases (ok 1), Bool-cases (ok 2), Bool-cases (ok 3), Bool-cases (ok 4)),
)
