-- ===== src/MiniKvm/Ept/Entry.antt =====
-- The words of ept.c as arithmetic: entries, indices and page numbers.
use virtualization_learning.Base.{
  ℕ, zero, suc, ◌+◌, ◌-◌, ◌*◌, ◌/◌, ◌%◌, ◌^◌, ◌≤◌, ◌<◌, bit_and, bit_or, ◌≡◌, sym, ap, ◌∙◌, arith,
  bit_and_mask, bit_or-eq-add, bit_and_shifted, bit_or_assoc,
}
use native.Mathlib.Nat.{div-div-eq-div-mul, pow-suc}
use virtualization_learning.MiniKvm.{page_to_phys}
use virtualization_learning.MiniKvm.Ept.{
  ept_entry_rwx, ept_memtype_wb, vmx_eptp_mt_wb, vmx_eptp_pwl_4, table_index, entry_frame,
  page_start,
}

-- The number of the page that an address lies in.
abbrev pub page_of : ℕ → ℕ
page_of gpa = gpa / 4096

-- The index of a page's entry in a table with this number of levels below it.
abbrev pub index_of : ℕ → ℕ → ℕ
index_of below page = page / 512 ^ below % 512

pub table_entry_lem : (frame : ℕ) → bit_or (page_to_phys frame) ept_entry_rwx ≡ frame * 4096 + 7
table_entry_lem frame = bit_or-eq-add 12 frame 7 (omega arith)

pub leaf_entry_lem :
    (frame : ℕ)
    → bit_or (bit_or (page_to_phys frame) ept_entry_rwx) ept_memtype_wb ≡ frame * 4096 + 55
leaf_entry_lem frame = bit_or_assoc (frame * 4096) 7 48 ∙ bit_or-eq-add 12 frame 55 (omega arith)

pub eptp_lem :
    (frame : ℕ)
    → bit_or (bit_or (page_to_phys frame) vmx_eptp_mt_wb) vmx_eptp_pwl_4 ≡ frame * 4096 + 30
eptp_lem frame = bit_or_assoc (frame * 4096) 6 24 ∙ bit_or-eq-add 12 frame 30 (omega arith)

pub entry_frame_lem : (entry : ℕ) → entry_frame entry ≡ entry / 4096 % 2 ^ 40
entry_frame_lem entry =
    omega (arith, bit_and_shifted 12 entry (2 ^ 40 - 1), bit_and_mask 40 (entry / 4096))

pub read_bit : (entry : ℕ) → bit_and entry 1 ≡ entry % 2
read_bit entry = bit_and_mask 1 entry

pub table_index_lem :
    (below gpa : ℕ) → below ≤ 3 → table_index below gpa ≡ index_of below (page_of gpa)
table_index_lem zero gpa h = omega (arith, bit_and_mask 9 (gpa / 2 ^ 12))
table_index_lem (suc zero) gpa h = omega (arith, bit_and_mask 9 (gpa / 2 ^ 21))
table_index_lem (suc (suc zero)) gpa h = omega (arith, bit_and_mask 9 (gpa / 2 ^ 30))
table_index_lem (suc (suc (suc zero))) gpa h = omega (arith, bit_and_mask 9 (gpa / 2 ^ 39))
table_index_lem (suc (suc (suc (suc n)))) gpa h = absurd (omega arith)

pub page_start_lem : (gpa : ℕ) → gpa < 2 ^ 64 → page_start gpa ≡ page_of gpa * 4096
page_start_lem gpa h =
    omega (arith, bit_and_shifted 12 gpa (2 ^ 52 - 1), bit_and_mask 52 (gpa / 4096))

-- The page number above a level is the number above the next level and the index between.
pub page-split :
    (below page : ℕ) → page / 512 ^ below ≡ page / 512 ^ suc below * 512 + index_of below page
page-split below page = omega (arith, up)
  where
    up : page / 512 ^ suc below ≡ page / 512 ^ below / 512
    up =
        ap (λ t. page / t) (omega (arith, pow-suc 512 below))
        ∙ sym (div-div-eq-div-mul page (512 ^ below) 512)
