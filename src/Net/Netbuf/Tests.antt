-- ===== src/Net/Netbuf/Tests.antt =====
-- A checksum, run.
use plant_os.Base.{◌≡◌, refl, [], ◌∷◌}
use plant_os.Net.Netbuf.{net_checksum, sum16, fold16}

summed : net_checksum (0x45 ∷ 0 ∷ 0xff ∷ 0xff ∷ 3 ∷ []) ≡ 0xb7ff
unfolding net_checksum sum16 fold16
summed = refl
