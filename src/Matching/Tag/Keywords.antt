-- ===== src/Matching/Tag/Keywords.antt =====
-- The keyword tables of internal/match/tag.go.
use threat_intel_arbiter.Common.{List, [], ◌∷◌, String}

pub record Technique : Type 0 where
  pub id : String
  pub keywords : List String

pub record Actor : Type 0 where
  pub id : String
  pub aliases : List String

unfoldable pub attack_techniques : List Technique
attack_techniques =
    record {
      id = "T1190";
      keywords =
          "public-facing app" ∷ "public facing" ∷ "exploit public-facing" ∷ "internet-facing app"
          ∷ [];
    }
    ∷ record {
      id = "T1059";
      keywords = "command and scripting" ∷ "powershell" ∷ "cmd.exe" ∷ "bash" ∷ "shell script" ∷ [];
    }
    ∷ record {
      id = "T1203";
      keywords =
          "exploitation for client execution" ∷ "drive-by" ∷ "malicious document" ∷ "office macro"
          ∷ [];
    }
    ∷ record {
      id = "T1566";
      keywords = "phishing" ∷ "spear phishing" ∷ "malicious email" ∷ "phishing attachment" ∷ [];
    }
    ∷ record { id = "T1047"; keywords = "wmi" ∷ "windows management instrumentation" ∷ [] }
    ∷ record { id = "T1053"; keywords = "scheduled task" ∷ "cron" ∷ "at job" ∷ "schtasks" ∷ [] }
    ∷ record {
      id = "T1078";
      keywords = "valid accounts" ∷ "credential stuffing" ∷ "default credential" ∷ [];
    }
    ∷ record {
      id = "T1068";
      keywords = "privilege escalation" ∷ "eop" ∷ "elevation of privilege" ∷ [];
    }
    ∷ record {
      id = "T1505";
      keywords = "server software component" ∷ "web shell" ∷ "iis module" ∷ "apache module" ∷ [];
    }
    ∷ record {
      id = "T1192";
      keywords = "spearphishing link" ∷ "malicious link" ∷ "spearphishing attachment" ∷ [];
    }
    ∷ record { id = "T1133"; keywords = "external remote services" ∷ "rdp" ∷ "vnc" ∷ "ssh" ∷ [] }
    ∷ record { id = "T1210"; keywords = "remote services" ∷ "smb" ∷ "rpc" ∷ "netbios" ∷ [] }
    ∷ record { id = "T1021"; keywords = "remote desktop protocol" ∷ "rdp" ∷ "remote desktop" ∷ [] }
    ∷ record {
      id = "T1090";
      keywords = "proxy" ∷ "connection proxy" ∷ "reverse proxy" ∷ "socks" ∷ [];
    }
    ∷ record {
      id = "T1110";
      keywords = "brute force" ∷ "password spray" ∷ "credential guessing" ∷ [];
    }
    ∷ record {
      id = "T1557";
      keywords =
          "adversary-in-the-middle" ∷ "mitm" ∷ "man in the middle" ∷ "llmnr" ∷ "netbios spoof" ∷ [];
    }
    ∷ record { id = "T1082"; keywords = "system information discovery" ∷ "host enumeration" ∷ [] }
    ∷ record {
      id = "T1018";
      keywords = "remote system discovery" ∷ "network scan" ∷ "port scan" ∷ [];
    }
    ∷ record {
      id = "T1046";
      keywords = "network service discovery" ∷ "port scan" ∷ "service scan" ∷ [];
    }
    ∷ record { id = "T1482"; keywords = "domain trust discovery" ∷ "trust relationship" ∷ [] }
    ∷ record { id = "T1083"; keywords = "file and directory discovery" ∷ "directory listing" ∷ [] }
    ∷ record {
      id = "T1003";
      keywords = "credential dumping" ∷ "lsass" ∷ "lsass.exe" ∷ "mimikatz" ∷ "sam database" ∷ [];
    }
    ∷ record {
      id = "T1552";
      keywords = "unsecured credentials" ∷ "credentials in files" ∷ "private key" ∷ [];
    }
    ∷ record {
      id = "T1539";
      keywords = "steal web session cookie" ∷ "session hijack" ∷ "cookie theft" ∷ [];
    }
    ∷ record {
      id = "T1027";
      keywords = "obfuscated files or information" ∷ "base64" ∷ "encoded" ∷ "packed" ∷ [];
    }
    ∷ record {
      id = "T1140";
      keywords = "deobfuscate/decode files or information" ∷ "decrypt" ∷ "decode" ∷ [];
    }
    ∷ record {
      id = "T1036";
      keywords = "masquerading" ∷ "signed binary proxy" ∷ "rundll32" ∷ "regsvr32" ∷ [];
    }
    ∷ record {
      id = "T1055";
      keywords = "process injection" ∷ "dll injection" ∷ "code injection" ∷ [];
    }
    ∷ record {
      id = "T1574";
      keywords = "hijack execution flow" ∷ "dll search order" ∷ "path interception" ∷ [];
    }
    ∷ record {
      id = "T1070";
      keywords = "indicator removal" ∷ "clear logs" ∷ "delete logs" ∷ "event log" ∷ [];
    }
    ∷ record {
      id = "T1562";
      keywords =
          "impair defenses" ∷ "disable security tools" ∷ "disable firewall" ∷ "disable av" ∷ [];
    }
    ∷ []

unfoldable pub threat_actors : List Actor
threat_actors =
    record {
      id = "APT28 (Fancy Bear)";
      aliases = "apt28" ∷ "fancy bear" ∷ "sofacy" ∷ "strontium" ∷ "tsar team" ∷ "pawn storm" ∷ [];
    }
    ∷ record {
      id = "APT29 (Cozy Bear)";
      aliases = "apt29" ∷ "cozy bear" ∷ "the dukes" ∷ "cozyduke" ∷ "miniduke" ∷ [];
    }
    ∷ record {
      id = "APT41 (Double Dragon)";
      aliases = "apt41" ∷ "double dragon" ∷ "barium" ∷ "winnti" ∷ "blackfly" ∷ [];
    }
    ∷ record {
      id = "Lazarus Group";
      aliases = "lazarus" ∷ "hidden cobra" ∷ "zinc" ∷ "appleworm" ∷ "apt38" ∷ [];
    }
    ∷ record { id = "FIN7"; aliases = "fin7" ∷ "carbanak" ∷ "anunak" ∷ "cobalt group" ∷ [] }
    ∷ record {
      id = "Turla";
      aliases = "turla" ∷ "snake" ∷ "uroburos" ∷ "venomous bear" ∷ "waterbug" ∷ [];
    }
    ∷ record {
      id = "Sandworm";
      aliases = "sandworm" ∷ "voodoo bear" ∷ "telebots" ∷ "blackenergy" ∷ "iron viking" ∷ [];
    }
    ∷ record {
      id = "APT10 (Stone Panda)";
      aliases = "apt10" ∷ "stone panda" ∷ "menuPass" ∷ "red apollo" ∷ "potassium" ∷ [];
    }
    ∷ record {
      id = "APT33 (Elfin)";
      aliases = "apt33" ∷ "elfin" ∷ "refined kitten" ∷ "magnallium" ∷ [];
    }
    ∷ record {
      id = "APT34 (OilRig)";
      aliases = "apt34" ∷ "oilrig" ∷ "crambus" ∷ "iridium" ∷ "helix kitten" ∷ [];
    }
    ∷ record { id = "APT39 (Chafer)"; aliases = "apt39" ∷ "chafer" ∷ "remexi" ∷ [] }
    ∷ record { id = "TA505"; aliases = "ta505" ∷ "sectorj04" ∷ "hive0065" ∷ "dridex" ∷ [] }
    ∷ record { id = "REvil"; aliases = "revil" ∷ "sodinokibi" ∷ "sodin" ∷ [] }
    ∷ record { id = "Conti"; aliases = "conti" ∷ "ryuk" ∷ "wizard spider" ∷ [] }
    ∷ record { id = "DarkSide"; aliases = "darkside" ∷ "blackmatter" ∷ "blackcat" ∷ "alphv" ∷ [] }
    ∷ record { id = "Hafnium"; aliases = "hafnium" ∷ "exchange" ∷ "proxyshell" ∷ "proxylogon" ∷ [] }
    ∷ record {
      id = "Mustang Panda";
      aliases = "mustang panda" ∷ "bronze president" ∷ "ta416" ∷ "plugx" ∷ [];
    }
    ∷ record {
      id = "Kimsuky";
      aliases = "kimsuky" ∷ "velvet chollima" ∷ "black banshee" ∷ "thallium" ∷ [];
    }
    ∷ record {
      id = "APT40 (Leviathan)";
      aliases = "apt40" ∷ "leviathan" ∷ "temp.jumper" ∷ "bronze mohawk" ∷ [];
    }
    ∷ record {
      id = "Gamaredon Group";
      aliases = "gamaredon" ∷ "primitive bear" ∷ "shuckworm" ∷ "actinium" ∷ [];
    }
    ∷ []
