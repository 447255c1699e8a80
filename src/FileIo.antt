-- ===== src/FileIo.antt =====
-- `MappedInputFile` and `MappedOutputFile` of src/file_io.cpp. What the system calls return is an
-- argument, and what they do a list; the text of `errno` is left off the messages.
pub mod Release
use ee542_lab2_fast_reliable.Common.{
  ℕ, String, List, [], ◌∷◌, ◌++◌, Option, none, some, Bool, true, false, not, ltb, ◌==◌,
  if◌then◌else◌, Result, ok, err, Exception, runtime_error,
}
use ee542_lab2_fast_reliable.Common.Int.{ℤ, pos, negsuc}

-- The calls that take or give back a resource; an address stands for a mapping.
pub data Action : Type 0 where
  opens : ℕ → Action
  closes : ℕ → Action
  maps : ℕ → Action
  unmaps : ℕ → Action

-- The members of both classes: `fd_`, where `none` is -1, `data_` and `size_`.
pub record MappedFile : Type 0 where
  pub descriptor : Option ℕ
  pub mapping : Option ℕ
  pub size : ℕ

abbrev pub Constructed : Type 0
Constructed = List Action × Result Exception MappedFile

-- The end of both constructors, on what `mmap` returns.
unfoldable pub store_mapping : String → ℕ → ℕ → Option ℕ → Constructed
store_mapping failure fd size none = (closes fd ∷ [], err (runtime_error failure))
store_mapping failure fd size (some address) =
    (maps address ∷ [], ok (record { descriptor = some fd; mapping = some address; size = size }))

unfoldable pub map_file : String → ℕ → ℕ → Option ℕ → Constructed
unfolding store_mapping
map_file failure fd size mapped =
    if size == 0
    then ([], ok (record { descriptor = some fd; mapping = none; size = size }))
    else store_mapping failure fd size mapped

-- What `fstat` finds: nothing, or a signed size.
unfoldable pub inspect : ℕ → Option ℤ → Option ℕ → Constructed
unfolding map_file
inspect fd none mapped = (closes fd ∷ [], err (runtime_error "cannot inspect input file: "))
inspect fd (some (negsuc n)) mapped =
    (closes fd ∷ [], err (runtime_error "input file has an invalid size"))
inspect fd (some (pos size)) mapped = map_file "cannot mmap input file: " fd size mapped

unfoldable pub with_opened : ℕ → Constructed → Constructed
with_opened fd (actions, result) = (opens fd ∷ actions, result)

-- The constructor of `MappedInputFile`.
unfoldable pub open_input : Option ℕ → Option ℤ → Option ℕ → Constructed
unfolding inspect with_opened
open_input none inspected mapped = ([], err (runtime_error "cannot open input file: "))
open_input (some fd) inspected mapped = with_opened fd (inspect fd inspected mapped)

unfoldable pub resize : ℕ → ℕ → Bool → Option ℕ → Constructed
unfolding map_file
resize fd size resized mapped =
    if resized
    then map_file "cannot mmap output file: " fd size mapped
    else (closes fd ∷ [], err (runtime_error "cannot resize output file: "))

unfoldable pub create : ℕ → Option ℕ → Bool → Option ℕ → Constructed
unfolding resize with_opened
create size none resized mapped = ([], err (runtime_error "cannot create output file: "))
create size (some fd) resized mapped = with_opened fd (resize fd size resized mapped)

-- The constructor of `MappedOutputFile`; the largest `off_t` is the system's.
unfoldable pub create_output : ℕ → ℕ → Option ℕ → Bool → Option ℕ → Constructed
unfolding create
create_output off_t_max size opened resized mapped =
    if ltb off_t_max size
    then ([], err (runtime_error "output file is too large for this system"))
    else create size opened resized mapped

abbrev pub unmap : Option ℕ → List Action
unmap none = []
unmap (some address) = unmaps address ∷ []

abbrev pub close : Option ℕ → List Action
close none = []
close (some fd) = closes fd ∷ []

-- Both destructors.
unfoldable pub destroy : MappedFile → List Action
destroy file = unmap file.mapping ++ close file.descriptor

unfoldable pub flush : Option ℕ → Bool → Result {0} Exception Unit
flush none flushed = ok tt
flush (some address) flushed =
    if flushed then ok tt else err (runtime_error "cannot flush output file: ")

-- `MappedOutputFile::sync`, on what `msync` returns.
unfoldable pub sync : MappedFile → Bool → Result {0} Exception Unit
unfolding flush
sync file flushed = flush file.mapping flushed
