-- ===== src/MiniVmm/MpTable/Examples.antt =====
-- The table that build_mptable (minivmm.c) writes, read back.
use virtualization_learning.Base.{◌≡◌, refl, some, arith, length}
use virtualization_learning.MiniVmm.MpTable.{encode_all, mp_entries, mp_config}
use virtualization_learning.MiniVmm.MpTable.Readable.{
  AllEntries, meanings, decode_config, decode_config-mp_config,
}

mp_entries-AllEntries : AllEntries mp_entries
unfolding mp_entries
mp_entries-AllEntries = omega arith

-- One processor, two buses, an IOAPIC, 15 sources and two local ones.
entries_size : length (encode_all mp_entries) ≡ 180
unfolding mp_entries encode_all
entries_size = refl

decode_config-mp_config_example : decode_config (mp_config mp_entries) ≡ some (meanings mp_entries)
decode_config-mp_config_example =
    decode_config-mp_config mp_entries mp_entries-AllEntries (omega (arith, entries_size))
