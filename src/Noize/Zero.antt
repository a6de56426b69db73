-- ===== src/Noize/Zero.antt =====
-- The zero value of `NoizeConfig` in masque/noize/noize.go.
use vwarp.Prelude.{true, false, []}
use vwarp.Prelude.Int.{pos}
use vwarp.Noize.{NoizeConfig}

abbrev pub zero_noize : NoizeConfig
zero_noize = record {
  i1 = [];
  i2 = [];
  i3 = [];
  i4 = [];
  i5 = [];
  fragment_size = pos 0;
  fragment_initial = false;
  fragment_delay = pos 0;
  padding_min = pos 0;
  padding_max = pos 0;
  random_padding = false;
  jc = pos 0;
  jmin = pos 0;
  jmax = pos 0;
  jc_before_hs = pos 0;
  jc_after_i1 = pos 0;
  jc_during_hs = pos 0;
  jc_after_hs = pos 0;
  junk_interval = pos 0;
  junk_random = false;
  mimic_protocol = [];
  custom_wrapper = false;
  handshake_delay = pos 0;
  packet_delay = pos 0;
  random_delay = false;
  delay_min = pos 0;
  delay_max = pos 0;
  sni_fragmentation = false;
  sni_fragment = pos 0;
  fake_alpn = [];
  reversed_order = false;
  duplicate_packets = false;
  allow_zero_size = false;
  use_timestamp = false;
  use_nonce = false;
  randomize_initial = false;
  fake_loss = record { below_zero = false; above_one = false; is_none = true };
}
