-- ===== src/Conf/Files.antt =====
-- conf/conf.go: reading the directory, and which files a change is taken from.
-- The file system is an argument: what os.Stat, ioutil.ReadDir and ioutil.ReadFile answer.
use motor.Base.{
  Text, lit, IsKeyed, insert-IsKeyed, ◌≡◌, subst, inl, inr, arith, Bool-cases, Option-cases, Dict,
  Bool, false, Option, none, some, List, [], ◌∷◌, base_name, has_prefix, has_suffix, text_eq,
  insert, if◌then◌else◌,
}
use motor.Conf.Storage.{Value}

pub record FileInfo : Type 0 where
  pub name : Text
  pub is_dir : Bool
  -- what ioutil.ReadFile gives, `none` for an error
  pub content : Option Text

pub data Stat : Type 0 where
  stat_failed not_a_dir : Stat
  -- a directory, and what ioutil.ReadDir gives for it
  dir : Option (List FileInfo) → Stat

pub data Error : Type 0 where
  os_stat read_dir_failed read_file_failed empty_conf_path : Error

pub data Result {ℓ} (A : Type ℓ) : Type ℓ where
  ok : A → Result A
  err : Error → Result A

infixl 5 ◌>>=◌
abbrev pub ◌>>=◌ {ℓ κ} : {A : Type ℓ} {B : Type κ} → Result A → (A → Result B) → Result B
ok a >>= f = f a
err e >>= f = err e

ok-injective : (a b : Dict Value) → ok a ≡ ok b → a ≡ b
ok-injective a b e = cc

read_files : Dict Value → List FileInfo → Result (Dict Value)
read_files cmap [] = ok cmap
read_files cmap (f ∷ files) =
    let skipped = read_files cmap files in
    let added =
      λ (content : Text). read_files (insert f.name (record { raw = content }) cmap) files in
    if f.is_dir
    then skipped
    else elim f.content [ none ↦ err read_file_failed | some content ↦ added content ]

-- errors.Wrap of a nil error is nil: a path that is no directory gives a nil map and no error.
unfoldable pub read_dir : Stat → Result (Dict Value)
unfolding read_files
read_dir stat_failed = err os_stat
read_dir not_a_dir = ok []
read_dir (dir none) = err read_dir_failed
read_dir (dir (some files)) = read_files [] files

non_empty : Dict Value → Result (Dict Value)
non_empty [] = err empty_conf_path
non_empty (e ∷ cmap) = ok (e ∷ cmap)

-- The map that newConf keeps as `raw` and stores.
unfoldable pub load_dir : Stat → Result (Dict Value)
unfolding read_dir non_empty
load_dir s = do cmap ← read_dir s; non_empty cmap

-- The entries of a directory that is read stand under one key each.
read_files-IsKeyed :
    (m m' : Dict Value) (files : List FileInfo)
    → IsKeyed m
    → read_files m files ≡ ok m'
    → IsKeyed m'
unfolding read_files
read_files-IsKeyed m m' [] h e = subst IsKeyed (ok-injective m m' e) h
read_files-IsKeyed m m' (f ∷ files) h e = elim (Bool-cases f.is_dir) [
  | inl d ↦ read_files-IsKeyed m m' files h (ground arith)
  | inr d ↦ elim (Option-cases f.content) [
    | inl n ↦ absurd (ground arith)
    | inr (content, s) ↦
        read_files-IsKeyed (insert f.name (record { raw = content }) m) m' files
          (insert-IsKeyed f.name (record { raw = content }) m h) (ground arith)
  ]
]

non_empty_ok : (r : Result (Dict Value)) (m : Dict Value) → (r >>= non_empty) ≡ ok m → r ≡ ok m
unfolding non_empty
non_empty_ok (ok []) m e = cc
non_empty_ok (ok (x ∷ n)) m e = e
non_empty_ok (err x) m e = cc

pub load_dir-IsKeyed : (s : Stat) (m : Dict Value) → load_dir s ≡ ok m → IsKeyed m
unfolding load_dir
load_dir-IsKeyed (dir (some files)) m e =
    read_files-IsKeyed [] m files tt (non_empty_ok (read_files [] files) m e)
load_dir-IsKeyed _ m e = cc

unfoldable pub filter_hide_file : Text → Text → Bool
filter_hide_file goos name =
    if text_eq goos (lit "linux") then has_prefix (base_name name) (lit ".") else false

unfoldable pub filter_backup_file : Text → Text → Bool
filter_backup_file goos name =
    if text_eq goos (lit "linux") then has_suffix name (lit "~") else false
