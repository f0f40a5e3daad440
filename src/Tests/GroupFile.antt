-- ===== src/Tests/GroupFile.antt =====
-- helper/group_file.c on a control packet and a piece of a file.
use oma_q.Prelude.{◌≡◌, refl, none, some, replicate, arith, ◌∷◌, ◌++◌}
use oma_q.Prelude.Bytes.{Bytes, codes}
use oma_q.GroupFile.{magic, control_pack, data_pack, data_unpack, put_u64}
use oma_q.GroupFile.Packets.{data_unpack-data_pack}

abbrev id : Bytes
id = replicate 16 7

not_a_control : control_pack 1373 4 id ≡ none
unfolding control_pack
not_a_control = refl

abbrev piece : Bytes
piece = codes "data"

data_unpack-data_pack_example :
    data_unpack (magic ++ 4 ∷ (id ++ (put_u64 1343 ++ piece)))
    ≡ some (record { id = id; offset = 1343; content = piece })
unfolding data_pack
data_unpack-data_pack_example =
    data_unpack-data_pack 1373 id (magic ++ 4 ∷ (id ++ (put_u64 1343 ++ piece))) 1343 piece refl
      (omega arith) refl
