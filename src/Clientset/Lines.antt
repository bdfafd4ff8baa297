-- ===== src/Clientset/Lines.antt =====
-- The lines that `getline` reads in src/Clientset.cpp and src/Conf.cpp.
use istatserverlinux.Prelude.{[], ◌∷◌, ◌++◌, ◌≡◌, refl, ap, sym, arith, append_assoc, append-nil}
use istatserverlinux.Text.{Bytes}
use istatserverlinux.Text.Explode.Pieces.{Lacks}
use istatserverlinux.Clientset.{lines}

-- A line up to its newline.
pub lines-append :
    (line s rest : Bytes)
    → Lacks b'\n' s
    → lines line (s ++ b'\n' ∷ rest) ≡ (line ++ s) ∷ lines [] rest
unfolding lines
lines-append [] [] rest h = refl
lines-append (d ∷ line) [] rest h = ap (λ l. (d ∷ l) ∷ lines [] rest) (sym (append-nil line))
lines-append [] (c ∷ s) rest h = ground (arith, lines-append (c ∷ []) s rest h.1)
lines-append (d ∷ line) (c ∷ s) rest h =
    ground (arith, lines-append (d ∷ (line ++ c ∷ [])) s rest h.1, append_assoc line (c ∷ []) s)
