-- ===== src/Buffer/Tests.antt =====
-- The buffer of core/ubuffer.h run on small inputs, and its theorems at them.
use uco.Prelude.{◌≡◌, refl, [], ◌∷◌, arith}
use uco.Prelude.Word.{sub64}
use uco.Prelude.Segments.{overlay, resize}
use uco.Buffer.{
  Buffer, init, readable_bytes, writable_bytes, reset, retrieve, retrieve_until, advance, compact,
  new_capacity, extend_buffer, ensure_writable_bytes, write_bytes, append, extend_size, double_size,
}
use uco.Buffer.Content.{IsValid, content}
use uco.Buffer.Growth.{content-append}

program : Unit {0}
unfolding sub64 overlay resize init readable_bytes writable_bytes reset retrieve retrieve_until
    advance compact new_capacity extend_buffer ensure_writable_bytes write_bytes append extend_size
    double_size
program = tt

abbrev sample : Buffer
sample = record { store = 1 ∷ 2 ∷ 3 ∷ 4 ∷ []; read_position = 1; write_position = 3 }

sample-IsValid : IsValid sample
sample-IsValid = record { ordered = omega arith; within = omega arith; small = omega arith }

append_moves :
    append (7 ∷ 8 ∷ []) sample
    ≡ record { store = 2 ∷ 3 ∷ 7 ∷ 8 ∷ []; read_position = 0; write_position = 4 }
unfolding program
append_moves = refl

append_grows :
    append (7 ∷ 8 ∷ 9 ∷ []) sample
    ≡ record { store = 1 ∷ 2 ∷ 3 ∷ 7 ∷ 8 ∷ 9 ∷ []; read_position = 1; write_position = 6 }
unfolding program
append_grows = refl

retrieve_until_end : retrieve_until 3 sample ≡ sample
unfolding program
retrieve_until_end = refl

content-append_example :
    IsValid (append (7 ∷ 8 ∷ []) sample)
    × (content (append (7 ∷ 8 ∷ []) sample) ≡ 2 ∷ 3 ∷ 7 ∷ 8 ∷ [])
content-append_example = content-append (7 ∷ 8 ∷ []) sample sample-IsValid (omega arith)
