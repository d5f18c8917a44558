-- ===== src/Md5/Table.antt =====
-- GRPC/src/Md5.cc: the sixty-four operations of `md5_process`, one entry for each line `P( … )`.
-- The registers of a line are those of the line before, moved round by one place.
use docker_compose_seckill_s.Base.{ℕ, List, [], ◌∷◌}

-- The last three arguments of the macro `P`.
pub record Operation : Type 0 where
  pub k : ℕ
  pub s : ℕ
  pub t : ℕ

abbrev pub round1 : List Operation
round1 =
    record { k = 0; s = 7; t = 0xd76a_a478 }
    ∷ record { k = 1; s = 12; t = 0xe8c7_b756 }
    ∷ record { k = 2; s = 17; t = 0x2420_70db }
    ∷ record { k = 3; s = 22; t = 0xc1bd_ceee }
    ∷ record { k = 4; s = 7; t = 0xf57c_0faf }
    ∷ record { k = 5; s = 12; t = 0x4787_c62a }
    ∷ record { k = 6; s = 17; t = 0xa830_4613 }
    ∷ record { k = 7; s = 22; t = 0xfd46_9501 }
    ∷ record { k = 8; s = 7; t = 0x6980_98d8 }
    ∷ record { k = 9; s = 12; t = 0x8b44_f7af }
    ∷ record { k = 10; s = 17; t = 0xffff_5bb1 }
    ∷ record { k = 11; s = 22; t = 0x895c_d7be }
    ∷ record { k = 12; s = 7; t = 0x6b90_1122 }
    ∷ record { k = 13; s = 12; t = 0xfd98_7193 }
    ∷ record { k = 14; s = 17; t = 0xa679_438e }
    ∷ record { k = 15; s = 22; t = 0x49b4_0821 }
    ∷ []

abbrev pub round2 : List Operation
round2 =
    record { k = 1; s = 5; t = 0xf61e_2562 }
    ∷ record { k = 6; s = 9; t = 0xc040_b340 }
    ∷ record { k = 11; s = 14; t = 0x265e_5a51 }
    ∷ record { k = 0; s = 20; t = 0xe9b6_c7aa }
    ∷ record { k = 5; s = 5; t = 0xd62f_105d }
    ∷ record { k = 10; s = 9; t = 0x0244_1453 }
    ∷ record { k = 15; s = 14; t = 0xd8a1_e681 }
    ∷ record { k = 4; s = 20; t = 0xe7d3_fbc8 }
    ∷ record { k = 9; s = 5; t = 0x21e1_cde6 }
    ∷ record { k = 14; s = 9; t = 0xc337_07d6 }
    ∷ record { k = 3; s = 14; t = 0xf4d5_0d87 }
    ∷ record { k = 8; s = 20; t = 0x455a_14ed }
    ∷ record { k = 13; s = 5; t = 0xa9e3_e905 }
    ∷ record { k = 2; s = 9; t = 0xfcef_a3f8 }
    ∷ record { k = 7; s = 14; t = 0x676f_02d9 }
    ∷ record { k = 12; s = 20; t = 0x8d2a_4c8a }
    ∷ []

abbrev pub round3 : List Operation
round3 =
    record { k = 5; s = 4; t = 0xfffa_3942 }
    ∷ record { k = 8; s = 11; t = 0x8771_f681 }
    ∷ record { k = 11; s = 16; t = 0x6d9d_6122 }
    ∷ record { k = 14; s = 23; t = 0xfde5_380c }
    ∷ record { k = 1; s = 4; t = 0xa4be_ea44 }
    ∷ record { k = 4; s = 11; t = 0x4bde_cfa9 }
    ∷ record { k = 7; s = 16; t = 0xf6bb_4b60 }
    ∷ record { k = 10; s = 23; t = 0xbebf_bc70 }
    ∷ record { k = 13; s = 4; t = 0x289b_7ec6 }
    ∷ record { k = 0; s = 11; t = 0xeaa1_27fa }
    ∷ record { k = 3; s = 16; t = 0xd4ef_3085 }
    ∷ record { k = 6; s = 23; t = 0x0488_1d05 }
    ∷ record { k = 9; s = 4; t = 0xd9d4_d039 }
    ∷ record { k = 12; s = 11; t = 0xe6db_99e5 }
    ∷ record { k = 15; s = 16; t = 0x1fa2_7cf8 }
    ∷ record { k = 2; s = 23; t = 0xc4ac_5665 }
    ∷ []

abbrev pub round4 : List Operation
round4 =
    record { k = 0; s = 6; t = 0xf429_2244 }
    ∷ record { k = 7; s = 10; t = 0x432a_ff97 }
    ∷ record { k = 14; s = 15; t = 0xab94_23a7 }
    ∷ record { k = 5; s = 21; t = 0xfc93_a039 }
    ∷ record { k = 12; s = 6; t = 0x655b_59c3 }
    ∷ record { k = 3; s = 10; t = 0x8f0c_cc92 }
    ∷ record { k = 10; s = 15; t = 0xffef_f47d }
    ∷ record { k = 1; s = 21; t = 0x8584_5dd1 }
    ∷ record { k = 8; s = 6; t = 0x6fa8_7e4f }
    ∷ record { k = 15; s = 10; t = 0xfe2c_e6e0 }
    ∷ record { k = 6; s = 15; t = 0xa301_4314 }
    ∷ record { k = 13; s = 21; t = 0x4e08_11a1 }
    ∷ record { k = 4; s = 6; t = 0xf753_7e82 }
    ∷ record { k = 11; s = 10; t = 0xbd3a_f235 }
    ∷ record { k = 2; s = 15; t = 0x2ad7_d2bb }
    ∷ record { k = 9; s = 21; t = 0xeb86_d391 }
    ∷ []
