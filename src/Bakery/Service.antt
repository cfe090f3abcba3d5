-- ===== src/Bakery/Service.antt =====
-- os_lab_rpc/bakery/bakery_svc.c: the start of the server.
use os_5sem.Prelude.{ℕ, ◌≡◌, Bool, [], ◌∷◌, ◌&&◌, if◌then◌else◌}
use os_5sem.Posix.Semop.{Sems}
use os_5sem.Posix.Script.{pmap_unset, svc_create, svc_register, svc_run, Host, service}
use os_5sem.Posix.Script.Registration.{registration_lem}

abbrev pub main : (ℕ → Bool) → Sems → ℕ × Host
main ok found =
    service ok found
      (pmap_unset ∷ svc_create ∷ svc_register ∷ svc_create ∷ svc_register ∷ svc_run ∷ [])

-- The service is offered over udp if the first two calls succeed, and over tcp too if all four do; the
-- exit status is 1 in every case.
pub bakery_main_lem :
    (ok : ℕ → Bool) (found : Sems)
    → ((main ok found).0 ≡ 1)
      × ((main ok found).1.registered
          ≡ (if ok 1 && ok 2 then (if ok 3 && ok 4 then 2 else 1) else 0))
bakery_main_lem ok found = registration_lem ok found
