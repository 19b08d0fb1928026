-- ===== src/Paging/Tests.antt =====
-- setup_paging of kernel/arch/i386/tty.c at concrete addresses.
use potato_os.Base.{◌≡◌, some, arith}
use potato_os.Paging.{Paging, setup_paging}
use potato_os.Paging.Translate.{translate, setup_paging-identity}

abbrev before : Paging
before = record { page_directory = λ _. 0; page_table = λ _. 0; cr3 = 0; cr0 = 17 }

setup_paging-identity_example :
    (translate 0x3000 (setup_paging 0x2000 0x3000 before) 0xA0123 ≡ some 0xA0123)
    × ((setup_paging 0x2000 0x3000 before).cr3 ≡ 0x2000)
setup_paging-identity_example =
    setup_paging-identity 0x2000 0x3000 before 0xA0123 (omega arith) (omega arith) (omega arith)
