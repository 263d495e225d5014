-- ===== src/File/Path/Tests.antt =====
-- Concrete paths.
use kssio.Prelude.{◌⊎◌, ◌++◌, Lacks, ◌∷◌, refl, ◌≡◌, codes}
use kssio.File.Path.Parts.{dirname-basename}
use kssio.File.Path.{
  Text, ok, [], done, basename, dirname, temporary_filename, created, closed, unlinked,
}

base_of_file : basename (codes "/usr/lib/libc.so") ≡ codes "libc.so"
unfolding basename kssio.File.Path.find_last_of
base_of_file = refl

dir_of_file : dirname (codes "/usr/lib/libc.so") ≡ codes "/usr/lib/"
unfolding dirname kssio.File.Path.find_last_of
dir_of_file = refl

base_of_slashes : basename (codes "//") ≡ []
unfolding basename kssio.File.Path.find_last_of
base_of_slashes = refl

temporary :
    temporary_filename (λ t. done t) (codes "a")
    ≡ ok (codes "aXXXXXX", created ∷ closed ∷ unlinked ∷ [])
unfolding temporary_filename
temporary = refl

dirname-basename_example :
    let path = codes "a/b" in
    Lacks b'/' (basename path)
    × (((dirname path ++ basename path ≡ path) × ((t : Text) × (dirname path ≡ t ++ b'/' ∷ [])))
        ⊎ (Lacks b'/' path × (basename path ≡ path) × (dirname path ≡ codes "./")))
dirname-basename_example = dirname-basename (codes "a/b")
