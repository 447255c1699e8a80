-- ===== src/Examples/FileIo.antt =====
-- Files that src/file_io.cpp maps and gives back.
use ee542_lab2_fast_reliable.Common.{◌^◌, ◌-◌, [], ◌∷◌, some, true}
use ee542_lab2_fast_reliable.Common.Int.{pos}
use ee542_lab2_fast_reliable.FileIo.{open_input, create_output}
use ee542_lab2_fast_reliable.FileIo.Release.{Held, Restores, files_released}

abbrev before : Held
before = record { descriptors = 0 ∷ 1 ∷ 2 ∷ []; mappings = [] }

files_released_example :
    Restores before (open_input (some 3) (some (pos 10)) (some 4096))
    × Restores before (create_output (2 ^ 63 - 1) 10 (some 3) true (some 4096))
files_released_example =
    files_released before (some 3) (some (pos 10)) (2 ^ 63 - 1) 10 true (some 4096)
