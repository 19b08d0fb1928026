-- ===== src/Ata/Tests.antt =====
-- The driver on a disk that follows the protocol, on one that never answers, and on one that reports
-- errors.
use potato_os.Base.{
  ℕ, ◌+◌, ◌*◌, ◌<◌, ◌≡◌, refl, Mem, SameOutside, minus_one, arith, none, some, [], false,
}
use potato_os.Terminal.{Terminal, terminal_initialize}
use potato_os.Drive.{Drive, part_start_lba}
use potato_os.Ata.{Ports, int13h_read_o, int13h_write_o}
use potato_os.Ata.Sample.{Registers, good_ports, good_disk, fresh, bytes_of}
use potato_os.Ata.Command.{int13h_read_o_sectors}
use potato_os.Ata.Stored.{stored, int13h_write_o_sectors}
use potato_os.Ata.Partition.{AtaDevice, ata_drive}
use potato_os.Fat.{Volume}
use potato_os.Fat.Sample.{blank_on}
use potato_os.Ata.Faults.{int13h_read_o_timeout, int13h_write_o_stuck}

abbrev blank_console : Terminal
blank_console = terminal_initialize (record {
  row = 0;
  column = 0;
  color = 0;
  buffer = 0;
  initialized = false;
  cells = λ _. 0;
  outs = [];
})

int13h_read_o_sectors_example :
    (m' : Mem) × (t' : Terminal) × (c' : Registers) × (int13h_read_o good_ports 7 2 512
        (λ _. 0)
        blank_console
        fresh
      ≡ (0, m', t', c'))
    × Unit {0}
    × (bytes_of c' ≡ bytes_of fresh)
    × ((j i : ℕ)
        → j < 2
        → i < 512
        → m' (512 + 512 * j + i) ≡ bytes_of fresh (part_start_lba + 7 + j) i)
    × SameOutside 512 (512 * 2) (λ _. 0) m'
int13h_read_o_sectors_example =
    int13h_read_o_sectors good_ports good_disk 7 2 512 (λ _. 0) blank_console fresh tt (omega arith)
      (omega arith) (omega arith)

int13h_write_o_sectors_example :
    (c' : Registers) × (int13h_write_o good_ports 5 7 2 512 (λ _. 9) fresh ≡ some (0, c'))
    × Unit {0}
    × ((n i : ℕ)
        → i < 512
        → bytes_of c' n i ≡ stored (part_start_lba + 7) 2 512 (λ _. 9) (bytes_of fresh) n i)
int13h_write_o_sectors_example =
    int13h_write_o_sectors good_ports good_disk 5 7 2 512 (λ _. 9) fresh (omega arith) tt
      (λ _. omega arith) (omega arith) (omega arith) (omega arith)

abbrev disk_drive : Drive
disk_drive = ata_drive good_ports good_disk

abbrev volume : Volume (AtaDevice good_ports good_disk)
volume = blank_on (record { controller = fresh; console = blank_console })

-- No data ever comes, and the error bit is set.
abbrev bad_ports : Ports
bad_ports = record {
  Controller = Unit {0};
  inb = λ _ c. (0x41, c);
  inw = λ _ c. (0, c);
  outb = λ _ _ c. c;
  outw = λ _ _ c. c;
}

int13h_read_o_timeout_example :
    (t' : Terminal) × (c' : Unit {0}) × (int13h_read_o bad_ports 7 2 512 (λ _. 0) blank_console tt
      ≡ (minus_one, (λ _. 0), t', c'))
int13h_read_o_timeout_example =
    int13h_read_o_timeout bad_ports (λ _. refl) 7 2 512 (λ _. 0) blank_console tt (omega arith)
      (omega arith) (omega arith)

int13h_write_o_stuck_example : int13h_write_o bad_ports 1000 7 2 512 (λ _. 0) tt ≡ none
int13h_write_o_stuck_example =
    int13h_write_o_stuck bad_ports (λ _. refl) 1000 7 2 512 (λ _. 0) tt (omega arith) (omega arith)
      (omega arith)
