-- ===== src/Fs/Ram/Tests.antt =====
-- The theorems on the bytes of a file, on some bytes: a write behind the end, and reads of it.
use riptide.Prelude.{ℕ, ◌≡◌, Bytes, codes, length, ltb, if◌then◌else◌, ◌-◌}
use riptide.Fs.Ram.{write_at}
use riptide.Fs.Ram.ByteAt.{byte_at}
use riptide.Fs.Ram.ReadWrite.{write_at_lem}

abbrev content : Bytes
content = codes "abc"

write_at_example :
    (length (write_at content 5 (codes "xy")) ≡ 7)
    × ((i : ℕ)
        → byte_at (write_at content 5 (codes "xy")) i ≡ (
            if ltb i 5
            then byte_at content i
            else if ltb i 7
            then byte_at (codes "xy") (i - 5)
            else byte_at content i))
write_at_example = write_at_lem content 5 (codes "xy")
