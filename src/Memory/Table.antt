-- ===== src/Memory/Table.antt =====
-- Assignment 8: the shared segments SM1 (page tables) and SM2 (frames), as master.c lays them out.
use operating_systems_iitkgp.Base.{ℕ, List, Option, none}

-- `INT_MAX` of limits.h, for a 32-bit `int`.
abbrev pub int_max : ℕ
int_max = 2147483647

abbrev pub max_processes : ℕ
max_processes = 100

abbrev pub max_virtual_addr_space : ℕ
max_virtual_addr_space = 25

-- A row of `pagetable`: [0] is the frame (`none` is -1), [1] the valid bit, [2] the timestamp.
pub record Entry : Type 0 where
  pub frame : Option ℕ
  pub valid : ℕ
  pub time : ℕ

abbrev pub cleared : Entry
cleared = record { frame = none; valid = 0; time = int_max }

-- `SM1`. Its `pagetable` has `max_virtual_addr_space` rows, of which the process uses `mi`.
pub record Sm1 : Type 0 where
  pub pid : ℕ
  pub mi : ℕ
  pub pagetable : List Entry
  pub total_page_faults : ℕ
  pub total_illegal_access : ℕ

-- A cell of SM2: 1 is free, 0 is occupied, -1 ends the list.
pub data Cell : Type 0 where
  free occupied end : Cell
