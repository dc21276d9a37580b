-- ===== src/Tests/Messages.antt =====
-- Messages and growing vectors at concrete inputs (userspace/libipc/src/message.cpp, bek/include/bek/vector.h).
use bek_os.Common.{ℕ, ◌^◌, ◌<◌, ◌≤◌, ◌≡◌, ◌⊎◌, refl, List, [], ◌∷◌, ◌++◌, Option, some, arith}
use bek_os.Common.Lists.{take}
use bek_os.Common.Outcome.{ok, err, fault, einval, eoverflow, ◌>>=◌}
use bek_os.Bek.Vector.Growth.{Vector, rounds, double_until, push_back, expand}
use bek_os.Bek.Vector.Growth.Capacity.{double_until_lem}
use bek_os.Bek.Vector.Growth.Contents.{Holds, push_back_lem}
use bek_os.Ipc.Message.{Message, to_buffer, from_buffer, decode_bytes}
use bek_os.Ipc.Message.RoundTrip.{from_buffer-to_buffer, from_buffer-to_buffer_exact}
use bek_os.Ipc.Message.Decode.{decode_pieces, decode_pieces_lem}
use bek_os.Ipc.Message.Encode.{encode_bytes, encode_bytes_lem}

abbrev two_bytes : Message
two_bytes = record {
  buffer = 7 ∷ 8 ∷ [];
  fds = 3 ∷ [];
  memory_regions = (4096, 64) ∷ [];
  cur_buffer_position = 0;
  cur_fd_i = 0;
  cur_region_i = 0;
  message_id = 5;
}

from_buffer-to_buffer_example :
    (to_buffer two_bytes >>= λ b. from_buffer (b ++ (0 ∷ []))) ≡ ok two_bytes
from_buffer-to_buffer_example =
    from_buffer-to_buffer two_bytes (0 ∷ [])
      (omega arith, omega arith, omega arith, (omega arith, tt), (omega arith, omega arith, tt))
      (omega arith)

from_buffer-to_buffer_exact_example : (to_buffer two_bytes >>= from_buffer) ≡ err einval
from_buffer-to_buffer_exact_example =
    from_buffer-to_buffer_exact two_bytes
      (omega arith, omega arith, omega arith, (omega arith, tt), (omega arith, omega arith, tt))

decode_pieces_lem_example :
    (decode_pieces two_bytes ((7 ∷ []) ∷ [])
      ≡ ok ((7 ∷ []) ∷ [], record two_bytes { cur_buffer_position = 1 }))
    × (decode_bytes (record two_bytes { cur_buffer_position = 1 }) 1 ≡ err eoverflow)
decode_pieces_lem_example =
    decode_pieces_lem two_bytes ((7 ∷ []) ∷ []) (8 ∷ []) refl refl (omega arith) (omega arith)

abbrev no_bytes : Vector ℕ
no_bytes = record { size = 0; array = [] }

encode_bytes_lem_example :
    (v : Vector ℕ) × (expand ℕ no_bytes 2 ≡ ok v)
    × (v.size ≡ 2)
    × ((encode_bytes no_bytes (7 ∷ 8 ∷ []) ≡ fault)
        ⊎ ((array : List (Option ℕ)) × (encode_bytes no_bytes (7 ∷ 8 ∷ [])
              ≡ ok (record { size = v.size; array = array }))
            × (take v.size array ≡ take v.size v.array)))
encode_bytes_lem_example =
    encode_bytes_lem no_bytes [] (7 ∷ 8 ∷ []) [] (refl, refl) (omega arith) (omega arith)

-- The two bytes leave the array of two slots.
encode_runs : encode_bytes no_bytes (7 ∷ 8 ∷ []) ≡ fault
unfolding encode_bytes double_until
encode_runs = refl

abbrev one_number : Vector ℕ
one_number = record { size = 1; array = some 7 ∷ [] }

push_back_lem_example :
    (v : Vector ℕ) × (spare : List (Option ℕ)) × (push_back ℕ one_number 8 ≡ ok v)
    × Holds ℕ v (7 ∷ 8 ∷ []) spare
push_back_lem_example =
    push_back_lem ℕ one_number (7 ∷ []) [] 8 (refl, refl) (omega arith) (omega arith)

doubles :
    (r : ℕ) × (double_until rounds 1 5 ≡ ok r)
    × (5 ≤ r)
    × (r < 2 ^ 64)
    × (1 ≤ r)
    × ((r ≡ 1) ⊎ (r < 10))
doubles = double_until_lem 1 5 (omega arith) (omega arith) (omega arith)
