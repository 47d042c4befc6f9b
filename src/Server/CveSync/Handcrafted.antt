-- ===== src/Server/CveSync/Handcrafted.antt =====
-- HANDCRAFTED_PATTERNS of server/app/cve_sync.py.
use aiss_waf_server.Prelude.{ℕ, String, List, [], ◌∷◌}
use aiss_waf_server.Prelude.Text.{codes}
use aiss_waf_server.Agent.Floats.{Floats}
use aiss_waf_server.Server.CveSync.Entry.{Entry}

-- `score` is the CVSS score in hundredths.
unfoldable pub handcrafted :
    (fl : Floats) (cve_id name pattern flags severity : String) (score : ℕ)
    (affected_product : String)
    → Entry fl
unfolding codes
handcrafted fl cve_id name pattern flags severity score affected_product = record {
  cve_id = codes cve_id;
  name = codes name;
  pattern = codes pattern;
  flags = codes flags;
  severity = codes severity;
  cvss = fl.hundredths score;
  affected_product = codes affected_product;
  source = codes "handcrafted";
  description = [];
}

unfoldable pub handcrafted_patterns : (fl : Floats) → List (Entry fl)
unfolding handcrafted
handcrafted_patterns fl =
    handcrafted fl "CVE-2021-44228" "Log4Shell" "\\$\\{jndi:(ldap|rmi|dns)://" "CASELESS" "CRITICAL"
      1000 "Apache Log4j2"
    ∷ handcrafted fl "CVE-2021-45046" "Log4Shell v2" "\\$\\{.*jndi:.*://" "CASELESS" "CRITICAL" 900
        "Apache Log4j2"
    ∷ handcrafted fl "CVE-2014-6271" "Shellshock" "\\(\\)\\s*\\{\\s*[^}]*\\};\\s*" "" "CRITICAL"
        1000 "GNU Bash"
    ∷ handcrafted fl "CVE-2022-22965" "Spring4Shell" "class\\.module\\.classLoader" "CASELESS"
        "CRITICAL" 980 "Spring Framework"
    ∷ handcrafted fl "CVE-2017-9841" "PHPUnit RCE"
        "vendor/phpunit/phpunit/src/Util/PHP/eval-stdin\\.php" "CASELESS" "CRITICAL" 980 "PHPUnit"
    ∷ handcrafted fl "CVE-2017-5638" "Apache Struts2 OGNL"
        "%\\{.*\\.getClass\\(\\)\\.forName\\(.*\\)\\}|Content-Type:.*%\\{" "CASELESS" "CRITICAL"
        1000 "Apache Struts2"
    ∷ handcrafted fl "CVE-2021-26084" "Confluence OGNL" "\\{[^}]*\\.getClass\\(\\)\\.forName\\("
        "CASELESS" "CRITICAL" 980 "Atlassian Confluence"
    ∷ handcrafted fl "GENERIC-SQLI" "SQL Injection"
        "(?i)(union\\s+select|or\\s+1\\s*=\\s*1|;\\s*drop\\s+table|exec\\s*xp_cmdshell)" "CASELESS"
        "HIGH" 800 "generic"
    ∷ handcrafted fl "GENERIC-XSS" "Cross-Site Scripting"
        "<script[^>]*>|javascript:|on(?:load|error|click|mouseover)\\s*=" "CASELESS" "HIGH" 750
        "generic"
    ∷ []
