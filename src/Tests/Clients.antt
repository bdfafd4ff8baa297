-- ===== src/Tests/Clients.antt =====
-- The set of clients at concrete names.
use istatserverlinux.Prelude.{[], ◌∷◌, ◌≡◌, refl, arith}
use istatserverlinux.Prelude.Int.{pos}
use istatserverlinux.Text.{codes}
use istatserverlinux.Clientset.{authenticate, save_cache}
use istatserverlinux.Clientset.Restart.{
  IsPlain, restarted, restarted-save_cache, fresh_set, restarted_impersonates,
}
use istatserverlinux.Tests.Fixture.{clients_of}

v-IsPlain : IsPlain (codes "v")
v-IsPlain = record { not_empty = λ e. cc; one_line = omega arith; one_field = omega arith }

restarted-save_cache_example :
    (restarted (λ rest. pos 1) (save_cache (clients_of (codes "v" ∷ [])))).authenticated_clients
    ≡ codes "v" ∷ []
restarted-save_cache_example =
    restarted-save_cache (λ rest. pos 1) (clients_of (codes "v" ∷ [])) (omega arith) refl
      (v-IsPlain, tt)

restarted_impersonates_example :
    (restarted
      (λ rest. pos 1)
      (authenticate (fresh_set [] (codes "/c/")) (codes "x:v:1"))).authenticated_clients
    ≡ codes "v" ∷ []
restarted_impersonates_example =
    restarted_impersonates (λ rest. pos 1) (codes "x") (codes "v") (codes "/c/") (λ e. cc) (λ e. cc)
      (omega arith) (omega arith) (omega arith) (omega arith) (omega arith)
