-- ===== src/Util/Tests.antt =====
-- The theorems on texts and numbers at concrete ones.
use rtp_server.Common.{◌^◌, ◌≡◌, refl, some, ◌++◌, arith, All, NoneOf, codes}
use rtp_server.Util.Decimal.{to_chars, from_chars, from_chars-to_chars}
use rtp_server.Util.Split.{split}
use rtp_server.Util.Split.Pieces.{split_partition, glue, is_ended}

split_parts_example :
    All (NoneOf b';') (split (codes "a;b") b';')
    × (glue b';' (split (codes "a;b") b';') ≡ codes "a;b;")
unfolding is_ended
split_parts_example = split_partition (codes "a;b") b';'

from_chars_example : from_chars (2 ^ 16) (to_chars 4588 ++ codes "-4589") ≡ some 4588
from_chars_example =
    from_chars-to_chars (2 ^ 16) 4588 (codes "-4589") (omega arith) (omega arith) refl
