-- ===== src/Examples/Data.antt =====
-- Simple functions in the place of Crypto++ and snappy, and the program's default configuration.
use shimakaze.Common.{none, true, false, [], some, replicate, refl}
use shimakaze.Common.Int.{pos}
use shimakaze.Common.Text.{codes}
use shimakaze.Config.Base.{BaseConfig}
use shimakaze.Qpp.Pad.{Primitives}
use shimakaze.Crypto.Packet.{Library, PacketCrypt, plain}
use shimakaze.Crypto.Constructor.{IsLibrary}
use shimakaze.Snappy.Stream.{Snappy}
use shimakaze.Snappy.Chunks.{IsSnappy}

abbrev pub toy_library : Library
toy_library = record {
  pbkdf2_sha1 = λ key salt rounds size. replicate size 7;
  make_cipher = λ name key. some (record { block_size = 16; process = λ bytes. bytes });
  salsa20 = λ key nonce text. text;
  gcm_seal = λ key nonce text. (text, replicate 16 0);
  gcm_open = λ key nonce body tag. some body;
}

pub toy_library-IsLibrary : IsLibrary toy_library
toy_library-IsLibrary = record {
  salsa20_undo = λ key nonce text. refl;
  length-salsa20 = λ key nonce text. refl;
  gcm_open-seal = λ key nonce text. refl;
  length-gcm_body = λ key nonce text. refl;
  length-gcm_tag = λ key nonce text. refl;
}

abbrev pub toy_snappy : Snappy
toy_snappy = record { compress = λ plain. plain; uncompress = λ packed. some packed }

pub toy_snappy-IsSnappy : IsSnappy toy_snappy
toy_snappy-IsSnappy = record { uncompress-compress = λ plain. refl }

abbrev pub toy_primitives : Primitives
toy_primitives = record {
  pbkdf2_sha1 = λ password salt size. replicate size 7;
  hmac_sha256 = λ key message'. replicate 32 3;
  aes_block = λ key bytes. bytes;
}

abbrev pub sample : BaseConfig
sample = record {
  key = codes "it's a secrect";
  crypt = codes "aes-128";
  mode = codes "fast";
  mtu = pos 1350;
  ratelimit = pos 0;
  sndwnd = pos 128;
  rcvwnd = pos 512;
  datashard = pos 10;
  parityshard = pos 3;
  dscp = pos 0;
  nocomp = true;
  acknodelay = false;
  nodelay = pos 0;
  interval = pos 50;
  resend = pos 0;
  nc = pos 0;
  sockbuf = pos 4194304;
  smuxver = pos 2;
  smuxbuf = pos 4194304;
  framesize = pos 8192;
  streambuf = pos 2097152;
  keepalive = pos 10;
  closewait = pos 0;
  snmplog = [];
  snmpperiod = pos 60;
  log_path = [];
  loglevel = codes "info";
  quiet = false;
  tcp = false;
  pprof = false;
  qpp = false;
  qpp_count = pos 61;
}

abbrev pub toy_crypt : PacketCrypt
toy_crypt = record {
  method = plain;
  effective_method = [];
  derived_key = [];
  cipher_key = [];
  xor_table = [];
  block = none;
}
