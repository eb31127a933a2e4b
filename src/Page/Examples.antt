-- ===== src/Page/Examples.antt =====
-- The theorems about paging at concrete addresses.
use strange_os.Prelude.{◌+◌, ◌≤◌, ◌≡◌, ◌↔◌, refl, true, some, inl, arith}
use strange_os.Page.{Paging, paging_enable, paging_map}
use strange_os.Page.Translate.{
  translate, user_page, paging_enable_identity, paging_enable-HasDirectory, paging_map_lem,
}

abbrev blank : Paging
blank = record { p_dir = λ _. 0; p_tab = λ _. 0 }

paging_enable_identity_example :
    (translate (paging_enable blank) 0x80_1234 ≡ some 0x80_1234)
    × ((user_page (paging_enable blank) 0x80_1234 ≡ true) ↔ (0x80_0000 ≤ 0x80_1234))
paging_enable_identity_example = paging_enable_identity blank 0x80_1234 (omega arith)

-- The window of a process that lies at 0xc00000.
paging_map_lem_example :
    (translate (paging_map 0x80_0000 0xc0_0000 512 (paging_enable blank)) (0x80_0000 + 0x1234)
      ≡ some (0xc0_0000 + 0x1234))
    × (translate (paging_map 0x80_0000 0xc0_0000 512 (paging_enable blank)) 0x7f_ffff
        ≡ translate (paging_enable blank) 0x7f_ffff)
paging_map_lem_example =
    paging_map_lem (paging_enable blank) 0x80_0000 0xc0_0000 512 0x1234 0x7f_ffff
      (paging_enable-HasDirectory blank) refl refl (omega arith) (omega arith) (omega arith)
      (omega arith) (inl (omega arith))
