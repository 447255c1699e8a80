-- ===== src/FileIo/Release.antt =====
-- Which resources the constructors and destructors of src/file_io.cpp leave behind.
use ee542_lab2_fast_reliable.Common.{
  ℕ, String, ◌≡◌, refl, List, [], ◌∷◌, ◌++◌, Option, none, some, Bool, true, false, not, ◌&&◌, ltb,
  ◌==◌, if◌then◌else◌, Bool-cases, inl, inr, ok, err, Exception, runtime_error, eq→==,
}
use ee542_lab2_fast_reliable.Common.Int.{ℤ, pos, negsuc}
use ee542_lab2_fast_reliable.FileIo.{
  Action, opens, closes, maps, unmaps, Constructed, store_mapping, map_file, inspect, with_opened,
  open_input, resize, create, create_output, destroy, flush, sync,
}

-- The descriptors and mappings of the process.
pub record Held : Type 0 where
  pub descriptors : List ℕ
  pub mappings : List ℕ

abbrev pub remove : ℕ → List ℕ → List ℕ
remove n [] = []
remove n (x ∷ xs) = if n == x then xs else x ∷ remove n xs

abbrev pub act : Action → Held → Held
act (opens fd) h = record h { descriptors = fd ∷ h.descriptors }
act (closes fd) h = record h { descriptors = remove fd h.descriptors }
act (maps address) h = record h { mappings = address ∷ h.mappings }
act (unmaps address) h = record h { mappings = remove address h.mappings }

abbrev pub act_all : List Action → Held → Held
act_all [] h = h
act_all (a ∷ actions) h = act_all actions (act a h)

-- After a constructor that throws, and after the destructor of an object that was constructed, the
-- process holds what it held before; and an object flushes its mapping, if its file has one.
abbrev pub Restores : Held → Constructed → Type 0
Restores h (actions, ok file) =
    (act_all (actions ++ destroy file) h ≡ h)
    × ((flushed : Bool)
        → sync file flushed ≡ (
            if not flushed && not (file.size == 0)
            then err (runtime_error "cannot flush output file: ")
            else ok tt))
Restores h (actions, err e) = act_all actions h ≡ h

module _ (h : Held) (fd : ℕ) (size : ℕ) (failure : String) where
  own : (n : ℕ) → (n == n) ≡ true
  own n = eq→== n n refl

  store_mapping-Restores :
      (mapped : Option ℕ)
      → (size == 0) ≡ false
      → Restores h (with_opened fd (store_mapping failure fd size mapped))
  unfolding with_opened store_mapping destroy sync flush
  store_mapping-Restores none e = rw (own fd) refl
  store_mapping-Restores (some address) e = (
    rw (own address, own fd) refl,
    λ flushed. elim (Bool-cases flushed) [ inl f ↦ rw f refl | inr f ↦ rw (f, e) refl ],
  )

  map_file-Restores :
      (mapped : Option ℕ) → Restores h (with_opened fd (map_file failure fd size mapped))
  unfolding with_opened map_file destroy sync flush
  map_file-Restores mapped = elim (Bool-cases (size == 0)) [
    | inl e ↦ rw e (
      rw (own fd) refl,
      λ flushed. elim (Bool-cases flushed) [ inl f ↦ rw f refl | inr f ↦ rw (f, e) refl ],
    )
    | inr e ↦ rw e (unfold with_opened in store_mapping-Restores mapped e)
  ]

  closed : (e : Exception) → Restores h (with_opened fd (closes fd ∷ [], err e))
  unfolding with_opened
  closed e = rw (own fd) refl

inspect-Restores :
    (h : Held) (fd : ℕ) (inspected : Option ℤ) (mapped : Option ℕ)
    → Restores h (with_opened fd (inspect fd inspected mapped))
unfolding inspect
inspect-Restores h fd none mapped = closed h fd 0 "" (runtime_error "cannot inspect input file: ")
inspect-Restores h fd (some (negsuc n)) mapped =
    closed h fd 0 "" (runtime_error "input file has an invalid size")
inspect-Restores h fd (some (pos size)) mapped = map_file-Restores h fd size _ mapped

open_input-Restores :
    (h : Held) (opened : Option ℕ) (inspected : Option ℤ) (mapped : Option ℕ)
    → Restores h (open_input opened inspected mapped)
unfolding open_input
open_input-Restores h none inspected mapped = refl
open_input-Restores h (some fd) inspected mapped = inspect-Restores h fd inspected mapped

create-Restores :
    (h : Held) (size : ℕ) (opened : Option ℕ) (resized : Bool) (mapped : Option ℕ)
    → Restores h (create size opened resized mapped)
unfolding create resize
create-Restores h size none resized mapped = refl
create-Restores h size (some fd) true mapped = map_file-Restores h fd size _ mapped
create-Restores h size (some fd) false mapped =
    closed h fd size "" (runtime_error "cannot resize output file: ")

create_output-Restores :
    (h : Held) (off_t_max size : ℕ) (opened : Option ℕ) (resized : Bool) (mapped : Option ℕ)
    → Restores h (create_output off_t_max size opened resized mapped)
unfolding create_output
create_output-Restores h off_t_max size opened resized mapped =
    elim (Bool-cases (ltb off_t_max size)) [
      | inl e ↦ rw e refl
      | inr e ↦ rw e (create-Restores h size opened resized mapped)
    ]

-- Whatever the system calls of the two file constructors return: if the constructor throws, the
-- process holds the descriptors and mappings that it held before; otherwise it holds them again
-- after the destructor, and `sync` fails exactly if the flush fails and the file is not empty.
pub files_released :
    (h : Held) (opened : Option ℕ) (inspected : Option ℤ) (off_t_max size : ℕ) (resized : Bool)
    (mapped : Option ℕ)
    → Restores h (open_input opened inspected mapped)
      × Restores h (create_output off_t_max size opened resized mapped)
files_released h opened inspected off_t_max size resized mapped = (
  open_input-Restores h opened inspected mapped,
  create_output-Restores h off_t_max size opened resized mapped,
)
