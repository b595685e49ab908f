-- ===== src/Version/Display.antt =====
-- `_format_public`, the canonical spelling of a version.
use core_pip.Prelude.{ℕ, [], ◌++◌, map, Text, codes, join, nat_beq, is_nil, ◌=?◌, if◌then◌else◌}
use core_pip.Prelude.Int.{ℤ, pos, negsuc, int_ord}
use core_pip.Version.Defs.{Segment, word, number, Suffix, Version, final_suffix}
use core_pip.Version.Order.{suffix_ord}
use core_pip.Version.Decimal.{str_of, dotted}

-- `_PRE_LABEL[rank]`, for the ranks of a prerelease
abbrev pub pre_text : ℤ → ℕ → Text
pre_text (negsuc r) n = []
pre_text (pos r) n =
    if nat_beq r 0
    then codes "a" ++ str_of n
    else if nat_beq r 1
    then codes "b" ++ str_of n
    else if nat_beq r 2
    then codes "rc" ++ str_of n
    else []

abbrev pub suffix_text : Suffix → Text
suffix_text s =
    pre_text s.pre_rank s.pre_number
    ++ ((if nat_beq s.post_rank 0 then [] else codes ".post" ++ str_of s.post_number)
        ++ (if nat_beq s.dev_rank 0 then codes ".dev" ++ str_of s.dev_number else []))

-- `str(part[1])`
abbrev pub segment_text : Segment → Text
segment_text (word t) = t
segment_text (number n) = str_of n

unfoldable pub public : Version → Text
public v =
    (if nat_beq v.epoch 0 then [] else str_of v.epoch ++ codes "!")
    ++ (dotted v.release
        ++ ((if v.suffix =? final_suffix then [] else suffix_text v.suffix)
            ++ (if is_nil v.local then [] else codes "+" ++ join b'.' (map segment_text v.local))))
