-- ===== src/Tests/Paths.antt =====
-- The path "//a/b/" on the file system of `Files`.
use nbos.Base.{ℕ, arith, ◌≡◌, refl, List, [], ◌∷◌, none, some}
use nbos.Fs.Name.{namei}
use nbos.Fs.Name.Components.{components_from, components, text}
use nbos.Fs.Name.Resolve.{resolve_path, namei-resolve_path}
use nbos.Tests.Files.{fs}

abbrev path : List ℕ
path = b'/' ∷ b'/' ∷ b'a' ∷ b'/' ∷ b'b' ∷ b'/' ∷ []

path-components : components path ≡ (b'a' ∷ []) ∷ (b'b' ∷ []) ∷ []
unfolding components_from
path-components = refl

namei-resolve_path_example : namei 9 none (some (text path)) fs ≡ resolve_path 9 none path fs
namei-resolve_path_example =
    namei-resolve_path 9 none (text path) path fs
      (
        refl,
        omega arith,
        (
          refl,
          omega arith,
          (refl, omega arith, (refl, omega arith, (refl, omega arith, (refl, omega arith, refl)))),
        ),
      )
      (omega arith) (omega arith)
