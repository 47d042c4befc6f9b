-- ===== src/Server/Inspect/Rules.antt =====
-- The rule tables of server/app/routers/inspect.py: each a regular expression and its rule name.
use aiss_waf_server.Prelude.{String, List, [], ◌∷◌}
use aiss_waf_server.Agent.Runtime.{Regex, ignoring_case, exact_case}

unfoldable pub sqli_patterns : List (Regex × String)
sqli_patterns =
    (ignoring_case "(?:--|\\bOR\\b|\\bAND\\b)[\\s\\S]*?(?:=|LIKE|BETWEEN)", "SQL-INJECT-OR-AND")
    ∷ (
      ignoring_case
          "(?:UNION[\\s\\S]+SELECT|INSERT[\\s\\S]+INTO|DROP[\\s\\S]+TABLE|UPDATE[\\s\\S]+SET|DELETE[\\s\\S]+FROM|TRUNCATE[\\s\\S]+TABLE)",
      "SQL-INJECT-DML",
    )
    ∷ (ignoring_case "(?:xp_cmdshell|EXEC\\s*\\(|EXECUTE\\s*\\(|sp_executesql)", "SQL-INJECT-EXEC")
    ∷ (
      ignoring_case "(?:SLEEP\\s*\\(\\s*\\d+|BENCHMARK\\s*\\(|WAITFOR\\s+DELAY)",
      "SQL-INJECT-TIME-BLIND",
    )
    ∷ (
      ignoring_case
          "(?:'[\\s]*OR[\\s]*'[^']*'[\\s]*=[\\s]*'|\\\"[\\s]*OR[\\s]*\\\"[^\\\"]*\\\"[\\s]*=[\\s]*\\\")",
      "SQL-INJECT-TAUTOLOGY",
    )
    ∷ (
      ignoring_case "(?:ORDER\\s+BY|GROUP\\s+BY)\\s+\\d+[\\s]*(?:--|#|/\\*|;)",
      "SQL-INJECT-ORDER-BY",
    )
    ∷ (ignoring_case "HAVING\\s+\\d+\\s*=\\s*\\d+", "SQL-INJECT-HAVING")
    ∷ (ignoring_case "['\\\"][\\s]*(?:--|#|/\\*)", "SQL-INJECT-COMMENT")
    ∷ []

unfoldable pub xss_patterns : List (Regex × String)
xss_patterns =
    (ignoring_case "<script[\\s>]", "XSS-SCRIPT-TAG")
    ∷ (ignoring_case "javascript\\s*:", "XSS-JS-PROTO")
    ∷ (ignoring_case "vbscript\\s*:", "XSS-VBSCRIPT")
    ∷ (
      ignoring_case
          "on(?:load|error|click|mouse\\w+|focus|blur|key\\w*|submit|reset|change|drag\\w*|drop|copy|cut|paste|scroll|resize|context\\w*)\\s*=",
      "XSS-EVENT-HANDLER",
    )
    ∷ (ignoring_case "<iframe[\\s>]", "XSS-IFRAME")
    ∷ (ignoring_case "<img[^>]+src\\s*=\\s*['\\\"]?\\s*javascript:", "XSS-IMG-JS")
    ∷ (ignoring_case "expression\\s*\\(", "XSS-CSS-EXPR")
    ∷ (ignoring_case "&#x[0-9a-fA-F]+;|&#\\d+;", "XSS-HTML-ENTITY")
    ∷ (
      ignoring_case "<(?:object|embed|applet|form|input|button|link|meta|base)[\\s>]",
      "XSS-DANGEROUS-TAG",
    )
    ∷ (ignoring_case "<svg[^>]*>", "XSS-SVG")
    ∷ (ignoring_case "data:\\s*text/html|data:\\s*application/javascript", "XSS-DATA-URI")
    ∷ []

unfoldable pub heuristic_patterns : List (Regex × String)
heuristic_patterns =
    (ignoring_case "(?:\\.\\.[\\\\/]){2,}", "PATH-TRAVERSAL")
    ∷ (
      ignoring_case
          "/etc/(?:passwd|shadow|group|hosts|hostname|crontab|cron\\.d|sudoers|ssh/|ssl/|nginx|apache)",
      "LFI-SENSITIVE-FILE",
    )
    ∷ (ignoring_case "/proc/self", "LFI-PROC")
    ∷ (ignoring_case "/var/(?:log|www|run|lib|spool)", "LFI-VAR-PATH")
    ∷ (ignoring_case "(?:data|expect|php|zip|phar|glob|ogg|rar)://", "LFI-STREAM-WRAPPER")
    ∷ (ignoring_case "(?:/boot/|/sys/|/dev/)", "LFI-SYS-PATH")
    ∷ (ignoring_case "(?:cmd\\.exe|/bin/sh|/bin/bash|/bin/zsh|powershell|pwsh)", "RCE-SHELL")
    ∷ (ignoring_case "(?:\\beval\\b|\\bexec\\b|\\bsystem\\b|\\bpassthru\\b)\\s*\\(", "RCE-EVAL")
    ∷ (
      ignoring_case
          "`\\s*(?:cat|ls|id|whoami|wget|curl|nc|netcat|ncat|bash|sh|python\\d?|perl|ruby|php|uname|ifconfig|hostname)\\b",
      "RCE-BACKTICK",
    )
    ∷ (
      ignoring_case
          "(?:%0[aAdD]|\\n|\\r)\\s*(?:cat|ls|id|whoami|wget|curl|nc|bash|sh|python|perl)\\b",
      "RCE-NEWLINE-INJECT",
    )
    ∷ (
      ignoring_case
          "(?:base64_decode|str_rot13|gzinflate|gzuncompress|str_replace|preg_replace)\\s*\\(",
      "PHP-OBFUSCATION",
    )
    ∷ (
      ignoring_case "\\$\\(\\s*(?:cat|ls|id|whoami|wget|curl|nc|bash|sh|python|perl)\\b",
      "RCE-SHELL-SUBST",
    )
    ∷ (ignoring_case "file://|dict://|gopher://|ldap://|tftp://|sftp://", "SSRF-SCHEME")
    ∷ (ignoring_case "169\\.254\\.169\\.254|metadata\\.google\\.internal", "SSRF-IMDS")
    ∷ (
      ignoring_case "(?:https?://|@|//|=)(?:localhost|127\\.0\\.0\\.1|0\\.0\\.0\\.0|\\[::1\\]|::1)",
      "SSRF-LOCALHOST",
    )
    ∷ (
      ignoring_case
          "(?:https?://|@|//|=)(?:10\\.\\d{1,3}\\.\\d{1,3}\\.\\d{1,3}|192\\.168\\.\\d{1,3}\\.\\d{1,3}|172\\.(?:1[6-9]|2\\d|3[01])\\.\\d{1,3}\\.\\d{1,3})",
      "SSRF-PRIVATE-SUBNET",
    )
    ∷ (ignoring_case "<!(?:ENTITY|DOCTYPE)[^>]+SYSTEM", "XXE-ENTITY")
    ∷ (ignoring_case "<!ENTITY\\s+[\\w%]", "XXE-ENTITY-GENERIC")
    ∷ (ignoring_case "\\{\\{[\\s\\S]{1,200}?\\}\\}", "SSTI-TEMPLATE-JINJA")
    ∷ (ignoring_case "<%=[\\s\\S]{1,200}?%>", "SSTI-ERB")
    ∷ (ignoring_case "\\[#(?:assign|list|if|include|import|attempt)\\b", "SSTI-FREEMARKER")
    ∷ (ignoring_case "\\{php\\}", "SSTI-SMARTY")
    ∷ (ignoring_case "\\$\\{[^}]{1,200}\\}", "SSTI-SPRING")
    ∷ (ignoring_case "#\\{[^}]{1,200}\\}", "SSTI-RUBY")
    ∷ (
      ignoring_case
          "\\$(?:gt|lt|gte|lte|ne|eq|in|nin|exists|where|regex|or|and|not|all|size|type|mod|text|near|geoWithin|elemMatch)\\b",
      "NOSQL-OPERATOR",
    )
    ∷ (
      ignoring_case "\\[\\s*\\$(?:gt|lt|gte|lte|ne|eq|in|nin|where|regex|or|and)\\s*\\]",
      "NOSQL-PARAM-INJECT",
    )
    ∷ (ignoring_case "\\$where\\s*[=:]\\s*['\\\"]?\\s*function\\s*\\(", "NOSQL-WHERE-FUNC")
    ∷ (
      ignoring_case
          "\\|\\|\\s*(?:cat|ls|id|whoami|wget|curl|nc|bash|sh|python|perl|uname|env|printenv|set)\\b",
      "CMD-INJECT-OR",
    )
    ∷ (
      ignoring_case
          "(?:%0[dD]%0[aA]|%0[aA]|\\\\r\\\\n|\\r\\n)\\s*(?:Set-Cookie|Location|Content-Type|Transfer-Encoding|X-[\\w-]+|WWW-Authenticate|Content-Length|Pragma)\\s*:",
      "CRLF-INJECT",
    )
    ∷ (ignoring_case "(?:%0[aAdD]|\\n|\\r)\\S", "LOG-NEWLINE-INJECT")
    ∷ (
      ignoring_case
          "(?:^|/)(?:\\.env|\\.htpasswd|\\.htaccess|web\\.config|WEB-INF/|\\.git/HEAD|\\.svn/entries|\\.DS_Store)\\b",
      "SENSITIVE-FILE-PROBE",
    )
    ∷ (
      ignoring_case
          "(?:^|/)(?:server-status|server-info|actuator/|__debug__|_admin/|manager/html|adminer\\.php|phpmyadmin|wp-login\\.php|xmlrpc\\.php)\\b",
      "ADMIN-ENDPOINT-PROBE",
    )
    ∷ (
      ignoring_case
          "\\*\\s*\\)\\s*\\(|\\)\\s*\\(\\s*(?:uid|cn|mail|ou|dc|objectClass|sAMAccountName|memberOf)\\s*[=*]",
      "LDAP-INJECT",
    )
    ∷ (ignoring_case "(?:uid|cn|mail|objectClass)\\s*=\\s*\\*\\s*\\)", "LDAP-WILDCARD")
    ∷ (
      ignoring_case "\\)\\s*\\(\\s*\\||\\|\\s*\\(\\s*(?:uid|cn|mail|objectClass|password)=",
      "LDAP-OR-INJECT",
    )
    ∷ (ignoring_case "%\\{[^}]{1,200}\\}", "OGNL-INJECT")
    ∷ (ignoring_case "rO0AB[A-Za-z0-9+/=]{4,}", "DESER-JAVA")
    ∷ (ignoring_case "O:\\d+:\"[A-Za-z_]\\w*\":\\d+:\\{", "DESER-PHP")
    ∷ (
      ignoring_case "(?:gASV|cposix\\n|cos\\n|cglobal\\n|creduced\\n|__reduce__|pickle\\.loads)",
      "DESER-PYTHON",
    )
    ∷ (ignoring_case "!!\\s*python/(?:object|apply|name|module|callable)", "DESER-YAML")
    ∷ (
      ignoring_case "__proto__|constructor\\s*\\.\\s*prototype|Object\\.prototype",
      "PROTO-POLLUTION",
    )
    ∷ (
      ignoring_case "\"constructor\"\\s*:\\s*\\{|\"__proto__\"\\s*:\\s*\\{",
      "PROTO-POLLUTION-JSON",
    )
    ∷ (
      ignoring_case
          "\"(?:role|isAdmin|is_admin|is_superuser|admin|superuser|permissions|privilege|elevated|root)\"\\s*:\\s*(?:true|\"admin\"|\"root\"|\"superadmin\"|\"superuser\"|\\d{3,})",
      "MASS-ASSIGN-PRIVILEGE",
    )
    ∷ (ignoring_case "eyJhbGciOiJub25lIn0", "JWT-NONE-ALG")
    ∷ (
      ignoring_case
          "Basic\\s+(?:YWRtaW46YWRtaW4=|YWRtaW46cGFzc3dvcmQ=|cm9vdDpyb290|Z3Vlc3Q6Z3Vlc3Q=|YWRtaW46MTIzNDU2|dXNlcjp1c2Vy|dGVzdDp0ZXN0)",
      "DEFAULT-CREDS",
    )
    ∷ (exact_case "AKIA[0-9A-Z]{16}", "AWS-KEY-EXPOSED")
    ∷ (
      ignoring_case "(?:apikey|api_key|secret|aws_secret|private_key)\\s*=\\s*[A-Za-z0-9/+]{20,}",
      "CREDENTIAL-IN-URL",
    )
    ∷ (
      ignoring_case "(?:^|&|\\?)(?:password|passwd|pwd|pass)\\s*=\\s*[^&\\s]{6,}",
      "PASSWORD-IN-URL",
    )
    ∷ (ignoring_case "\\|\\s*(?:id|ls|nc|ps|env|set|w|who|tty)\\b", "CMD-INJECT-PIPE")
    ∷ (ignoring_case ";\\s*(?:id|nc|env|set|w|who|tty|uname)\\b", "CMD-INJECT-SHORT")
    ∷ (ignoring_case "(?:%[diouxXeEfFgGaAcsSp]){3,}|%n", "FORMAT-STRING")
    ∷ (
      ignoring_case
          "\\{[0-9a-zA-Z_]*\\.__(?:class|dict|mro|bases|subclasses|globals|init|import|builtins|module)\\b",
      "SSTI-PYTHON-FORMAT",
    )
    ∷ (ignoring_case "\\baced[0-9a-f]{4}[0-9a-f]{2,}", "DESER-JAVA-HEX")
    ∷ (ignoring_case "constructor\\[prototype\\]|\\[prototype\\]\\[", "PROTO-POLLUTION-CHAIN")
    ∷ (
      ignoring_case
          "\"password\"\\s*:\\s*\"(?:admin|root|password|123456|pass|p@ssw0rd|letmein|welcome|guest|test|qwerty|abc123)\"",
      "DEFAULT-CREDS-JSON",
    )
    ∷ (exact_case "%00|\\x00", "NULL-BYTE-INJECT")
    ∷ (ignoring_case "%c0%af|%c1%9c|%e0%80%af|%c0%2f|%c0%5c", "PATH-TRAVERSAL-OVERLONG")
    ∷ []
