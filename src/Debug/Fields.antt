-- ===== src/Debug/Fields.antt =====
-- The types of debug.h (`db_reg_t`, `store_data_t`, `db_t`), with `operand_t` of operand.h and
-- SS_INST_TYPE of ss.h, and what the methods of the buffer do to the one entry that they fill in.
use anycore_pisa.Base.{
  ℕ, ◌+◌, List, bit_and, ltb, ◌==◌, if◌then◌else◌, set, Outcome, ok, fail, aborted, ◌>>◌, assert,
}

-- Two words: the opcode, and the operand fields.
pub record Inst : Type 0 where
  pub a : ℕ
  pub b : ℕ

pub data Operand : Type 0 where
  rsrc_operand rdst_operand msrc_operand mdst_operand rsrc_a_operand : Operand

pub record DbReg : Type 0 where
  pub n : ℕ
  pub value : ℕ

-- The view of the union as two words.
pub record StoreData : Type 0 where
  pub word_0 : ℕ
  pub word_1 : ℕ

pub record Entry : Type 0 where
  pub a_pc : ℕ
  pub a_next_pc : ℕ
  pub a_inst : Inst
  pub a_flags : ℕ
  pub a_lat : ℕ
  pub a_num_rdst : ℕ
  pub a_rdst : List DbReg
  pub a_num_rsrc : ℕ
  pub a_rsrc : List DbReg
  pub a_num_rsrc_a : ℕ
  pub a_rsrc_a : List DbReg
  pub a_addr : ℕ
  pub real_upper : ℕ
  pub real_lower : ℕ
  pub store_data : StoreData
  pub why_vector : ℕ

abbrev pub d_max_rdst : ℕ
d_max_rdst = 2

abbrev pub d_max_rsrc : ℕ
d_max_rsrc = 4

-- F_STORE of ss.h.
abbrev pub f_store : ℕ
f_store = 0x80

-- `start` resets the three operand counts and nothing else.
unfoldable pub start_entry : Entry → Entry
start_entry e = record e { a_num_rdst = 0; a_num_rsrc = 0; a_num_rsrc_a = 0 }

unfoldable pub push_operand : ℕ → Operand → ℕ → Entry → Outcome Entry
push_operand n rdst_operand value e = do
  assert (ltb e.a_num_rdst d_max_rdst)
  ok (record e {
    a_rdst = set e.a_rdst e.a_num_rdst (record { n = n; value = value });
    a_num_rdst = e.a_num_rdst + 1;
  })
push_operand n rsrc_operand value e = do
  assert (ltb e.a_num_rsrc d_max_rsrc)
  ok (record e {
    a_rsrc = set e.a_rsrc e.a_num_rsrc (record { n = n; value = value });
    a_num_rsrc = e.a_num_rsrc + 1;
  })
push_operand n rsrc_a_operand value e = do
  assert (ltb e.a_num_rsrc_a d_max_rsrc)
  ok (record e {
    a_rsrc_a = set e.a_rsrc_a e.a_num_rsrc_a (record { n = n; value = value });
    a_num_rsrc_a = e.a_num_rsrc_a + 1;
  })
push_operand n msrc_operand value e = fail aborted
push_operand n mdst_operand value e = fail aborted

unfoldable pub push_address : ℕ → Operand → ℕ → ℕ → Entry → Outcome Entry
push_address addr msrc_operand upper lower e =
    ok (record e { a_addr = addr; real_upper = upper; real_lower = lower })
push_address addr mdst_operand upper lower e =
    ok (record e { a_addr = addr; real_upper = upper; real_lower = lower })
push_address addr rsrc_operand upper lower e = fail aborted
push_address addr rdst_operand upper lower e = fail aborted
push_address addr rsrc_a_operand upper lower e = fail aborted

unfoldable pub push_instr : Inst → ℕ → ℕ → ℕ → ℕ → ℕ → ℕ → Entry → Entry
push_instr inst flags latency pc next_pc upper lower e =
    let e' = record e {
      a_inst = inst;
      a_flags = flags;
      a_lat = latency;
      a_pc = pc;
      a_next_pc = next_pc;
    } in
    if bit_and flags f_store == 0
    then e'
    else record e' { store_data = record { word_0 = upper; word_1 = lower } }
