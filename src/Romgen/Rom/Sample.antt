-- ===== src/Romgen/Rom/Sample.antt =====
-- A small image, for the tests.
use sdcc.Common.{arith}
use sdcc.Romgen.Rom.{Rom, start, grown, write}
use sdcc.Romgen.Rom.Store.{IsValid, start-IsValid, grown-IsValid, write-IsValid}

-- Two defined bytes with a gap between them.
abbrev pub gapped : Rom
gapped = write 0x2103 4 (write 0x2100 1 (grown 6 start))

pub gapped-IsValid : IsValid gapped
unfolding write
gapped-IsValid =
    write-IsValid (write 0x2100 1 (grown 6 start))
      (write-IsValid (grown 6 start) (grown-IsValid start start-IsValid 6 (omega arith)) 0x2100 1
        (omega arith))
      0x2103 4 (omega arith)
